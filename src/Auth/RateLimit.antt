-- ===== src/Auth/RateLimit.antt =====
-- `RateLimiter.check` of admin-api/app/auth.py as a sliding window: the deque holds the requests that
-- were let through within the last window, and never more than the limit.
use mqtt_broker_stack.Common.{
  ℕ, ◌⊎◌, ◌+◌, ◌≤◌, ◌<◌, ◌≡◌, refl, sym, ap, ◌∙◌, Bool, true, false, not, List, [], ◌∷◌, ◌++◌,
  arith, ltb, leb, leb_iff, ltb_iff, length, length-append, keep, All, All-append, All-keep,
  IsSorted, if◌then◌else◌, Bool-cases, inl, inr, subst,
}
use native.Mathlib.Nat.{le_trans}
use mqtt_broker_stack.Auth.Limiter.{drop_old, check_deque}

-- A request at `a` still counts at `now`.
abbrev pub recent : ℕ → ℕ → ℕ → Bool
recent window now a = not (leb (a + window) now)

keep-eq_self {ℓ} :
    {A : Type ℓ} (p : A → Bool) (xs : List A) → All (λ x. p x ≡ true) xs → keep p xs ≡ xs
keep-eq_self p [] h = refl
keep-eq_self p (x ∷ xs) (e, h) = rw (e, keep-eq_self p xs h) refl

keep-append {ℓ} :
    {A : Type ℓ} (p : A → Bool) (xs ys : List A) → keep p (xs ++ ys) ≡ keep p xs ++ keep p ys
keep-append p [] ys = refl
keep-append p (x ∷ xs) ys =
    rw (keep-append p xs ys) (elim (Bool-cases (p x)) [ inl e ↦ rw e refl | inr e ↦ rw e refl ])

-- Once a request has left the window it stays outside.
keep-keep-recent :
    (window now now' : ℕ) (xs : List ℕ)
    → now ≤ now'
    → keep (recent window now') (keep (recent window now) xs) ≡ keep (recent window now') xs
keep-keep-recent window now now' [] h = refl
keep-keep-recent window now now' (x ∷ xs) h = ground (arith, keep-keep-recent window now now' xs h)

later_recent :
    (window now a : ℕ) (xs : List ℕ)
    → recent window now a ≡ true
    → All (λ y. leb a y ≡ true) xs
    → All (λ y. recent window now y ≡ true) xs
later_recent window now a [] e h = tt
later_recent window now a (x ∷ xs) e h = (ground arith, later_recent window now a xs e h.1)

drop_old-eq-keep :
    (window now : ℕ) (xs : List ℕ)
    → IsSorted leb xs
    → drop_old window now xs ≡ keep (recent window now) xs
unfolding drop_old
drop_old-eq-keep window now [] s = refl
drop_old-eq-keep window now (x ∷ xs) s = elim (Bool-cases (leb (x + window) now)) [
  | inl e ↦ rw e (drop_old-eq-keep window now xs s.1)
  | inr e ↦ rw e (
      ap (λ l. x ∷ l)
        (sym (keep-eq_self (recent window now) xs (later_recent window now x xs (rw e refl) s.0))))
]

IsSorted-keep : (p : ℕ → Bool) (xs : List ℕ) → IsSorted leb xs → IsSorted leb (keep p xs)
IsSorted-keep p [] s = tt
IsSorted-keep p (x ∷ xs) s =
    elim (p x) as (λ b. IsSorted leb (if b then x ∷ keep p xs else keep p xs)) [
      | true ↦ (All-keep (λ y. leb x y ≡ true) p xs s.0, IsSorted-keep p xs s.1)
      | false ↦ IsSorted-keep p xs s.1
    ]

All-leb : (now now' : ℕ) (xs : List ℕ) → now ≤ now' → All (λ a. a ≤ now) xs → All (λ a. a ≤ now') xs
All-leb now now' [] h p = tt
All-leb now now' (x ∷ xs) h p = (omega arith, All-leb now now' xs h p.1)

IsSorted-concat :
    (xs : List ℕ) (now : ℕ)
    → IsSorted leb xs
    → All (λ a. a ≤ now) xs
    → IsSorted leb (xs ++ now ∷ [])
IsSorted-concat [] now s h = (tt, tt)
IsSorted-concat (x ∷ xs) now s h = (
  All-append (λ y. leb x y ≡ true) xs (now ∷ []) s.0 ((leb_iff x now).1 h.0, tt),
  IsSorted-concat xs now s.1 h.1,
)

length-keep-le {ℓ} : {A : Type ℓ} (p : A → Bool) (xs : List A) → length (keep p xs) ≤ length xs
length-keep-le p [] = omega arith
length-keep-le p (x ∷ xs) = ground (arith, length-keep-le p xs)

-- The requests that were let through, and the deque that stands for them at `now`.
pub record Represents (limit window now : ℕ) (accepted deque : List ℕ) : Type 0 where
  pub sorted : IsSorted leb accepted
  pub past : All (λ a. a ≤ now) accepted
  pub live : deque ≡ keep (recent window now) accepted
  pub bounded : length deque ≤ limit

-- One request at `now'`, with the list of accepted requests kept beside the deque.
abbrev pub accept : Bool → ℕ → List ℕ → List ℕ
accept pass now accepted = if pass then accepted ++ now ∷ [] else accepted

module _ (limit window now now' : ℕ) (accepted deque : List ℕ)
    (r : Represents limit window now accepted deque) (h : now ≤ now') where
  pruned : drop_old window now' deque ≡ keep (recent window now') accepted
  pruned = rw r.live (
      drop_old-eq-keep window now' (keep (recent window now) accepted)
        (IsSorted-keep (recent window now) accepted r.sorted)
      ∙ keep-keep-recent window now now' accepted h)

  live-le-limit : length (keep (recent window now') accepted) ≤ limit
  live-le-limit =
      let same = keep-keep-recent window now now' accepted h in
      let shorter = length-keep-le (recent window now') (keep (recent window now) accepted) in
      let bound : length (keep (recent window now) accepted) ≤ limit =
        subst (λ (l : List ℕ). length l ≤ limit) r.live r.bounded in
      subst (λ (l : List ℕ). length l ≤ limit) same (le_trans shorter bound)

  check_deque_cases :
      ((ltb (length (keep (recent window now') accepted)) limit ≡ false)
        × (check_deque limit window now' deque ≡ (false, keep (recent window now') accepted)))
      ⊎ ((ltb (length (keep (recent window now') accepted)) limit ≡ true)
          × (check_deque limit window now' deque
              ≡ (true, keep (recent window now') accepted ++ now' ∷ [])))
  unfolding check_deque
  check_deque_cases =
      rw pruned (elim (Bool-cases (leb limit (length (keep (recent window now') accepted)))) [
        | inl e ↦ inl (ground arith, rw e refl)
        | inr e ↦ inr (ground arith, rw e refl)
      ])

  step-Represents :
      0 < window
      → Represents limit window now'
          (accept (check_deque limit window now' deque).0 now' accepted)
          (check_deque limit window now' deque).1
  step-Represents pos = elim check_deque_cases [
    | inl (full, e) ↦ rw e (record {
      sorted = r.sorted;
      past = All-leb now now' accepted h r.past;
      live = refl;
      bounded = live-le-limit;
    })
    | inr (room, e) ↦ rw e (record {
      sorted = IsSorted-concat accepted now' r.sorted (All-leb now now' accepted h r.past);
      past =
          All-append (λ a. a ≤ now') accepted (now' ∷ []) (All-leb now now' accepted h r.past)
            (omega arith, tt);
      live = sym (
          keep-append (recent window now') accepted (now' ∷ [])
          ∙ ap (λ l. keep (recent window now') accepted ++ l) fresh);
      bounded = omega (
        arith,
        length-append {0} (keep (recent window now') accepted) (now' ∷ []),
        (ltb_iff _ limit).0 room,
      );
    })
  ]
    where
      fresh : keep (recent window now') (now' ∷ []) ≡ now' ∷ []
      fresh = ground arith

-- A run of requests with one key, each at its time, from the requests accepted so far and the deque.
unfoldable pub serve : ℕ → ℕ → List ℕ → List ℕ → List ℕ → List ℕ × List ℕ
serve limit window [] accepted deque = (accepted, deque)
serve limit window (now ∷ times) accepted deque =
    serve limit window times (accept (check_deque limit window now deque).0 now accepted)
      (check_deque limit window now deque).1

-- The times go up from `now`, and the last of them.
abbrev pub Ascends : ℕ → List ℕ → Type 0
Ascends now [] = Unit
Ascends now (t ∷ ts) = (now ≤ t) × Ascends t ts

abbrev pub last_time : ℕ → List ℕ → ℕ
last_time now [] = now
last_time now (t ∷ ts) = last_time t ts

serve-Represents :
    (limit window now : ℕ) (times accepted deque : List ℕ)
    → 0 < window
    → Represents limit window now accepted deque
    → Ascends now times
    → Represents limit window
        (last_time now times)
        (serve limit window times accepted deque).0
        (serve limit window times accepted deque).1
unfolding serve
serve-Represents limit window now [] accepted deque pos r a = r
serve-Represents limit window now (t ∷ ts) accepted deque pos r a =
    serve-Represents limit window t ts _ _ pos
      (step-Represents limit window now t accepted deque r a.0 pos) a.1

-- For a window that is not empty and requests with one key on a clock that does not go back, the deque
-- holds exactly the accepted requests of the last window, and there are at most `limit` of them.
pub serve_window :
    (limit window : ℕ) (times : List ℕ)
    → 0 < window
    → Ascends 0 times
    → ((serve limit window times [] []).1
        ≡ keep (recent window (last_time 0 times)) (serve limit window times [] []).0)
      × (length (keep (recent window (last_time 0 times)) (serve limit window times [] []).0)
          ≤ limit)
serve_window limit window times pos a =
    let r =
      serve-Represents limit window 0 times [] [] pos
        (record { sorted = tt; past = tt; live = refl; bounded = omega arith }) a in
    (r.live, subst (λ (l : List ℕ). length l ≤ limit) r.live r.bounded)
