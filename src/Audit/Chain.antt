-- ===== src/Audit/Chain.antt =====
-- The hash chain of admin-api/app/audit.py: what `verify_chain` accepts, and that `append_event` keeps it.
use mqtt_broker_stack.Common.{
  ℕ, suc, ◌+◌, ◌≤◌, Text, codes, ◌≡◌, refl, sym, ap, ◌∙◌, ◌↔◌, true, false, some, List, [], ◌∷◌,
  ◌++◌, arith, eq_iff, length, length-append, All, sort_by, IsSorted, sort_by-eq_self, Bool-cases,
  inl, inr, subst,
}
use mqtt_broker_stack.Models.{
  AuditEvent, Database, World, Json, string, object, Fields, done, field, Env,
}
use mqtt_broker_stack.Audit.{
  no_hash, Content, leading_fields, event_hash, event_of, content_of, latest, next_sequence, link,
  Entry, content_for, append_event, valid, broken, sequence_before, event_fails, verify_from,
  verify_chain,
}

abbrev pub append_fields : Fields → Fields → Fields
append_fields done gs = gs
append_fields (field k v fs) gs = field k v (append_fields fs gs)

-- What the chain relies on of `json`: a value that was written and read back is written the same
-- again as a field of an object.
pub record IsCodec (env : Env) : Type 0 where
  pub reload :
      (before : Fields) (k : Text) (v : Json) (after : Fields)
      → env.dumps (object (append_fields before (field k (env.loads (env.dumps v)) after)))
        ≡ env.dumps (object (append_fields before (field k v after)))

abbrev pub last_hash : Text → List AuditEvent → Text
last_hash p [] = p
last_hash p (e ∷ es) = last_hash e.event_hash es

module _ (env : Env) where
  -- The events are numbered from `n`, the first follows the hash `p`, each later one follows the hash
  -- of the one before it, and every stored hash is that of the event's content.
  abbrev pub Links : ℕ → Text → List AuditEvent → Type 0
  Links n p [] = Unit
  Links n p (e ∷ es) =
      (e.sequence ≡ n)
      × (e.previous_hash ≡ p)
      × (e.event_hash ≡ event_hash env (content_of env e))
      × Links (suc n) e.event_hash es

  event_fails_iff :
      (n : ℕ) (p : Text) (e : AuditEvent)
      → (event_fails env n p e ≡ false) ↔ (
          (e.sequence ≡ n)
          × (e.previous_hash ≡ p)
          × (e.event_hash ≡ event_hash env (content_of env e)))
  unfolding event_fails
  event_fails_iff n p e = (
    λ h.
        ground (
          arith,
          eq_iff e.previous_hash p,
          eq_iff e.event_hash (event_hash env (content_of env e)),
        ),
    λ h.
        ground (
          arith,
          eq_iff e.previous_hash p,
          eq_iff e.event_hash (event_hash env (content_of env e)),
        ),
  )

  verify_from-of-Links :
      (count n : ℕ) (p : Text) (es : List AuditEvent)
      → Links n p es
      → verify_from env count n p es ≡ valid count (last_hash p es)
  unfolding verify_from
  verify_from-of-Links count n p [] h = refl
  verify_from-of-Links count n p (e ∷ es) (s, q, k, h) =
      rw ((event_fails_iff n p e).1 (s, q, k))
        (verify_from-of-Links count (suc n) e.event_hash es h)

  Links-of_verify_from :
      (count c n : ℕ) (p h : Text) (es : List AuditEvent)
      → verify_from env count n p es ≡ valid c h
      → Links n p es
  unfolding verify_from
  Links-of_verify_from count c n p h [] e = tt
  Links-of_verify_from count c n p h (x ∷ es) e = elim (Bool-cases (event_fails env n p x)) [
    | inl f ↦ absurd (no_valid (rw f at e))
    | inr f ↦
        let (s, q, k) = (event_fails_iff n p x).0 f in
        (s, q, k, Links-of_verify_from count c (suc n) x.event_hash h es (rw f at e))
  ]
    where
      no_valid : broken x.sequence count ≡ valid c h → ⊥
      no_valid q = cc

  later_sequences :
      (n : ℕ) (p : Text) (es : List AuditEvent) (e : AuditEvent)
      → e.sequence ≤ n
      → Links n p es
      → All (λ x. sequence_before e x ≡ true) es
  later_sequences n p [] e h l = tt
  later_sequences n p (x ∷ es) e h (s, q, k, l) =
      (ground arith, later_sequences (suc n) x.event_hash es e (omega arith) l)

  Links-IsSorted :
      (n : ℕ) (p : Text) (es : List AuditEvent) → Links n p es → IsSorted sequence_before es
  Links-IsSorted n p [] l = tt
  Links-IsSorted n p (x ∷ es) (s, q, k, l) = (
    later_sequences (suc n) x.event_hash es x (omega arith) l,
    Links-IsSorted (suc n) x.event_hash es l,
  )

  -- A linked table is in the order of its sequence numbers.
  sort_by-Links :
      (n : ℕ) (p : Text) (es : List AuditEvent) → Links n p es → sort_by sequence_before es ≡ es
  sort_by-Links n p es l = sort_by-eq_self sequence_before es (Links-IsSorted n p es l)

  latest_of_Links :
      (n : ℕ) (p : Text) (e : AuditEvent) (es : List AuditEvent)
      → Links n p (e ∷ es)
      → (l : AuditEvent) × (latest (e ∷ es) ≡ some l)
        × (l.sequence + 1 ≡ n + length (e ∷ es))
        × (l.event_hash ≡ last_hash p (e ∷ es))
  unfolding latest
  latest_of_Links n p e [] (s, q, k, h) = (e, refl, omega arith, refl)
  latest_of_Links n p e (x ∷ es) (s, q, k, h) =
      let (l, found, place, hash) = latest_of_Links (suc n) e.event_hash x es h in
      (l, rw found (ground arith), omega arith, hash)

  next_of_Links :
      (es : List AuditEvent)
      → Links 1 no_hash es
      → (next_sequence (latest es) ≡ 1 + length es) × (link (latest es) ≡ last_hash no_hash es)
  next_of_Links [] h = unfold latest in (refl, refl)
  next_of_Links (e ∷ es) h =
      let (l, found, place, hash) = latest_of_Links 1 no_hash e es h in rw found (place, hash)

  Links-append :
      (n : ℕ) (p : Text) (es : List AuditEvent) (e : AuditEvent)
      → Links n p es
      → (e.sequence ≡ n + length es)
        × (e.previous_hash ≡ last_hash p es)
        × (e.event_hash ≡ event_hash env (content_of env e))
      → Links n p (es ++ e ∷ [])
  Links-append n p [] e l (s, q, k) = (omega arith, q, k, tt)
  Links-append n p (x ∷ es) e (a, b, c, l) (s, q, k) =
      (a, b, c, Links-append (suc n) x.event_hash es e l (omega arith, q, k))

  last_hash-append :
      (p : Text) (es : List AuditEvent) (e : AuditEvent) → last_hash p (es ++ e ∷ []) ≡ e.event_hash
  last_hash-append p [] e = refl
  last_hash-append p (x ∷ es) e = last_hash-append x.event_hash es e

  -- The stored hash of a new row is the hash that `verify_chain` will compute for it.
  event_of-hash :
      IsCodec env
      → (c : Content)
      → (event_of env c).event_hash ≡ event_hash env (content_of env (event_of env c))
  unfolding event_of content_of event_hash
  event_of-hash codec c = ap env.sha256 (
      sym (
        codec.reload (leading_fields env c done) (codes "metadata") c.metadata
          (field (codes "previous_hash") (string c.previous_hash) done)))

  -- `verify_chain` accepts a table, with its number of rows and its last hash, exactly if its rows, in
  -- the order of their numbers, are linked: numbered from 1, each with the hash of the row before it and
  -- with the hash of its own content.
  pub verify_chain-valid_iff :
      (db : Database)
      → (verify_chain env db
          ≡ valid
              (length (sort_by sequence_before db.events))
              (last_hash no_hash (sort_by sequence_before db.events)))
        ↔ Links 1 no_hash (sort_by sequence_before db.events)
  unfolding verify_chain
  verify_chain-valid_iff db =
      (λ e. Links-of_verify_from _ _ 1 no_hash _ _ e, λ l. verify_from-of-Links _ 1 no_hash _ l)

  -- Any number of appended entries.
  pub append_all : List Entry → World → World
  append_all [] w = w
  append_all (entry ∷ entries) w = append_all entries (append_event env entry w).1

  one_more :
      (es : List AuditEvent) (e : AuditEvent)
      → valid (length (es ++ e ∷ [])) (last_hash no_hash (es ++ e ∷ []))
        ≡ valid (suc (length es)) e.event_hash
  one_more es e =
      ap (λ h. valid (length (es ++ e ∷ [])) h) (last_hash-append no_hash es e)
      ∙ ap (λ n. valid n e.event_hash) (omega (arith, length-append {0} es (e ∷ [])))

  module _ (codec : IsCodec env) where
    append_event-Links :
        (entry : Entry) (w : World)
        → Links 1 no_hash w.db.events
        → Links 1 no_hash (append_event env entry w).1.db.events
    append_event-Links entry w l =
        let c = content_for env entry (latest w.db.events) (env.clock w.clock_reads) in
        let (number, hash) = next_of_Links w.db.events l in
        unfold append_event in
        Links-append 1 no_hash w.db.events (event_of env c) l (
          unfold event_of content_for in number,
          unfold event_of content_for in hash,
          event_of-hash codec c,
        )

    -- If JSON that was read back is written the same again, then appending to a table whose rows are
    -- linked in the order in which they stand keeps the chain whole: `verify_chain` accepts one row more,
    -- and its head is the hash of the new row.
    pub verify_chain-append_event :
        (entry : Entry) (w : World)
        → Links 1 no_hash w.db.events
        → verify_chain env (append_event env entry w).1.db
          ≡ valid
              (suc (length w.db.events))
              (event_of env
                (content_for env entry (latest w.db.events) (env.clock w.clock_reads))).event_hash
    verify_chain-append_event entry w l =
        let l' = append_event-Links entry w l in
        unfold verify_chain in
        rw (sort_by-Links 1 no_hash (append_event env entry w).1.db.events l') (
          verify_from-of-Links (length (append_event env entry w).1.db.events) 1 no_hash
            (append_event env entry w).1.db.events l'
          ∙ (unfold append_event in
              one_more w.db.events (
                event_of env
                  (content_for env entry (latest w.db.events) (env.clock w.clock_reads)))))

    append_all-Links :
        (entries : List Entry) (w : World)
        → Links 1 no_hash w.db.events
        → Links 1 no_hash (append_all entries w).db.events
    unfolding append_all
    append_all-Links [] w l = l
    append_all-Links (entry ∷ entries) w l =
        append_all-Links entries (append_event env entry w).1 (append_event-Links entry w l)

    length-append_all :
        (entries : List Entry) (w : World)
        → length (append_all entries w).db.events ≡ length w.db.events + length entries
    unfolding append_all
    length-append_all [] w = omega arith
    length-append_all (entry ∷ entries) w =
        length-append_all entries (append_event env entry w).1
        ∙ (unfold append_event in
            omega (
              arith,
              length-append {0} w.db.events (
                  event_of env
                    (content_for env entry (latest w.db.events) (env.clock w.clock_reads))
                  ∷ []),
            ))

    -- If JSON that was read back is written the same again, then from an empty table, whatever is
    -- appended and whenever, `verify_chain` accepts all the rows and its head is the last row's hash.
    pub verify_chain-append_all :
        (entries : List Entry) (w : World)
        → w.db.events ≡ []
        → verify_chain env (append_all entries w).db
          ≡ valid (length entries) (last_hash no_hash (append_all entries w).db.events)
    verify_chain-append_all entries w e =
        let l' = append_all-Links entries w (subst (λ es. Links 1 no_hash es) (sym e) tt) in
        unfold verify_chain in
        rw (sort_by-Links 1 no_hash (append_all entries w).db.events l') (
          verify_from-of-Links (length (append_all entries w).db.events) 1 no_hash
            (append_all entries w).db.events l'
          ∙ ap (λ n. valid n (last_hash no_hash (append_all entries w).db.events))
              (length-append_all entries w ∙ rw e (omega arith)))
