-- ===== src/Api/History.antt =====
-- The route of admin-api/app/main.py that shows the audit table: which rows it selects, and the state of
-- the chain. The rows are given as they are, before `audit_view` turns them into JSON.
use mqtt_broker_stack.Common.{
  ℕ, zero, suc, ◌≤◌, Text, ◌≡◌, refl, sym, ap, ◌∙◌, ◌⊎◌, inl, inr, Bool, true, false, ◌&&◌, ◌||◌,
  Option, none, some, List, [], ◌∷◌, ◌==◌, Memᴰ, All, All-of_mem, All-at, keep, take, length, leb,
  sort_by, IsSorted, sort_by-IsSorted, mem_of_mem-sort_by, mem-sort_by, mem_of_mem-keep, mem-keep,
  arith,
}
use mqtt_broker_stack.Models.{
  AuditEvent, Database, World, Result, ok, raised, Exec, pure, gets, ◌>>=◌, ◌>>◌, >>=-eq-ok, Env,
}
use mqtt_broker_stack.Auth.{Actor, Credentials, require_role}
use mqtt_broker_stack.Audit.{ChainStatus, verify_chain}
use mqtt_broker_stack.Api.Queries.{viewer}

-- The parameters of the route.
pub record HistoryQuery : Type 0 where
  pub action : Option Text
  pub result : Option Text
  pub q : Option Text
  pub limit : ℕ

-- A parameter that is missing or empty is not tested.
abbrev pub if_given : Option Text → (Text → Bool) → Bool
if_given none test = true
if_given (some []) test = true
if_given (some (c ∷ t)) test = test (c ∷ t)

-- A test of a column that may be NULL.
abbrev pub if_present : Option Text → (Text → Bool) → Bool
if_present none test = false
if_present (some t) test = test t

-- `order_by(AuditEvent.sequence.desc())`
abbrev pub later : AuditEvent → AuditEvent → Bool
later a b = leb b.sequence a.sequence

-- `like` is SQL's test for a text in a column, the column second.
module _ (like : Text → Text → Bool) where
  unfoldable pub is_selected : HistoryQuery → AuditEvent → Bool
  is_selected query e =
      if_given query.action (λ t. e.action == t)
      && if_given query.result (λ t. e.result == t)
      && if_given query.q
          (λ t. like t e.target || if_present e.actor_id (like t) || like t e.correlation_id)

  unfoldable pub select_events : HistoryQuery → Database → List AuditEvent
  unfolding is_selected
  select_events query db = take query.limit (sort_by later (keep (is_selected query) db.events))

  unfoldable pub audit_history :
      Env → Credentials → HistoryQuery → Exec (ChainStatus × List AuditEvent)
  unfolding select_events
  audit_history env credentials query = do
    require_role env viewer credentials
    events ← gets (λ w. select_events query w.db)
    chain ← gets (λ w. verify_chain env w.db)
    pure (chain, events)

module _ {ℓ} {A : Type ℓ} where
  mem_of_mem-take : {a : A} (n : ℕ) (xs : List A) → Memᴰ a (take n xs) → Memᴰ a xs
  mem_of_mem-take zero xs m = elim m [ ]
  mem_of_mem-take (suc n) [] m = m
  mem_of_mem-take (suc n) (x ∷ xs) (Memᴰ.head e) = Memᴰ.head e
  mem_of_mem-take (suc n) (x ∷ xs) (Memᴰ.tail m) = Memᴰ.tail (mem_of_mem-take n xs m)

  length-take : (n : ℕ) (xs : List A) → length (take n xs) ≤ n
  length-take zero xs = omega arith
  length-take (suc n) [] = omega arith
  length-take (suc n) (x ∷ xs) = omega (arith, length-take n xs)

  module _ (before : A → A → Bool) where
    take-IsSorted : (n : ℕ) (xs : List A) → IsSorted before xs → IsSorted before (take n xs)
    take-IsSorted zero xs s = tt
    take-IsSorted (suc n) [] s = tt
    take-IsSorted (suc n) (x ∷ xs) (p, s) = (
      All-of_mem (λ y. before x y ≡ true) (take n xs)
          (λ y m. All-at (λ y. before x y ≡ true) xs p (mem_of_mem-take n xs m)),
      take-IsSorted n xs s,
    )

    -- What does not fit is behind everything that does.
    take_cases :
        {a : A} (n : ℕ) (xs : List A)
        → IsSorted before xs
        → Memᴰ a xs
        → Memᴰ a (take n xs) ⊎ ((length (take n xs) ≡ n) × All (λ y. before y a ≡ true) (take n xs))
    take_cases zero xs s m = inr (refl, tt)
    take_cases (suc n) [] s m = elim m [ ]
    take_cases (suc n) (x ∷ xs) s (Memᴰ.head e) = inl (Memᴰ.head e)
    take_cases (suc n) (x ∷ xs) (p, s) (Memᴰ.tail m) = elim (take_cases n xs s m) [
      | inl h ↦ inl (Memᴰ.tail h)
      | inr (full, h) ↦ inr (omega arith, (All-at (λ y. before x y ≡ true) xs p m, h))
    ]

later_total : (x y : AuditEvent) → later x y ≡ false → later y x ≡ true
later_total x y e = ground arith

later_trans : (x y z : AuditEvent) → later x y ≡ true → later y z ≡ true → later x z ≡ true
later_trans x y z e f = ground arith

-- The last rows of a table that a query selects, newest first.
pub record IsLatest (like : Text → Text → Bool) (query : HistoryQuery) (rows : List AuditEvent)
    (es : List AuditEvent) : Type 0 where
  pub sound : All (λ e. Memᴰ e rows × (is_selected like query e ≡ true)) es
  pub ordered : IsSorted later es
  pub limited : length es ≤ query.limit
  pub complete :
      (e : AuditEvent)
      → Memᴰ e rows
      → is_selected like query e ≡ true
      → Memᴰ e es ⊎ ((length es ≡ query.limit) × All (λ x. later x e ≡ true) es)

abbrev shown : Result (ChainStatus × List AuditEvent) → List AuditEvent
shown (ok (chain, es)) = es
shown (raised e) = []

abbrev chain_of : ChainStatus → Result (ChainStatus × List AuditEvent) → ChainStatus
chain_of d (ok (chain, es)) = chain
chain_of d (raised e) = d

module _ (like : Text → Text → Bool) (query : HistoryQuery) where
  select_events-IsLatest :
      (db : Database) → IsLatest like query db.events (select_events like query db)
  unfolding select_events
  select_events-IsLatest db =
      let kept : List AuditEvent = keep (is_selected like query) db.events in
      let sorted : IsSorted later (sort_by later kept) =
        sort_by-IsSorted later later_total later_trans kept in
      record {
        sound =
            All-of_mem (λ e. Memᴰ e db.events × (is_selected like query e ≡ true)) _
              (λ e m.
                mem_of_mem-keep (is_selected like query) db.events
                  (mem_of_mem-sort_by later kept (mem_of_mem-take query.limit _ m)));
        ordered = take-IsSorted later query.limit (sort_by later kept) sorted;
        limited = length-take query.limit (sort_by later kept);
        complete = λ e m h.
            take_cases later query.limit (sort_by later kept) sorted
              (mem-sort_by later kept (mem-keep (is_selected like query) db.events m h));
      }

  -- If `audit_history` succeeds, then the role of a viewer was checked, the rows it shows are selected
  -- rows of the table, newest first and at most as many as the limit, a selected row is left out only if
  -- the limit is reached by rows that are not older, and the state of the chain is that of the whole table.
  pub audit_history-IsLatest :
      (env : Env) (credentials : Credentials) (w v : World) (chain : ChainStatus)
      (es : List AuditEvent)
      → audit_history like env credentials query w ≡ (ok (chain, es), v)
      → ((a : Actor) × (require_role env viewer credentials w ≡ (ok a, v)))
        × IsLatest like query v.db.events es
        × (chain ≡ verify_chain env v.db)
  unfolding audit_history
  audit_history-IsLatest env credentials w v chain es e =
      let (a, u, p, q) = >>=-eq-ok (require_role env viewer credentials) _ w e in
      let same : u ≡ v = ap (λ (r : Result (ChainStatus × List AuditEvent) × World). r.1) q in
      let rows : select_events like query u.db ≡ es =
        ap (λ (r : Result (ChainStatus × List AuditEvent) × World). shown r.0) q in
      let state : verify_chain env u.db ≡ chain =
        ap (λ (r : Result (ChainStatus × List AuditEvent) × World). chain_of chain r.0) q in
      (
        (a, p ∙ ap (λ x. (ok a, x)) same),
        rw (← same, ← rows) (select_events-IsLatest u.db),
        sym state ∙ ap (λ (x : World). verify_chain env x.db) same,
      )
