-- ===== src/Policy/Topic/Laws.antt =====
-- What policy.py's `topic_matches` decides for the simulation.
use mqtt_broker_stack.Common.{
  Text, codes, ◌≡◌, ◌⊎◌, refl, ap, sym, ◌∙◌, Memᴰ, Option-cases, false≢true, Bool, true, false,
  ◌&&◌, not, Option, none, some, List, [], ◌∷◌, arith, ◌==◌, All, if◌then◌else◌, Bool-cases, inl,
  inr, split_on, starts_with, join, is_empty,
}
use mqtt_broker_stack.Policy.Topic.{
  slash, cons_level, expand_levels, matches_expanded, topic_matches,
}
use mqtt_broker_stack.Policy.Topic.Filter.{
  accepts, meets_empty, fits, fits-accepts, IsFilter, NoSlash, NoNewline,
}
use mqtt_broker_stack.Policy.Topic.Split.{split_on-eq-cons, split_on-join, split_on-NoSlash}
use mqtt_broker_stack.Policy.Topic.Matching.{matches-topic_expression}

-- The `$` boundary between a filter and a topic.
abbrev pub crosses_boundary : Text → Text → Bool
crosses_boundary pattern topic =
    starts_with topic (codes "$") && not (starts_with pattern (codes "$"))

abbrev NoSlashes : Option (List Text) → Type 0
NoSlashes none = Unit
NoSlashes (some ls) = All NoSlash ls

cons_level-NoSlashes :
    (l : Text) (o : Option (List Text)) → NoSlash l → NoSlashes o → NoSlashes (cons_level l o)
cons_level-NoSlashes l none h k = tt
cons_level-NoSlashes l (some ls) h k = (h, k)

if-NoSlashes :
    (b : Bool) (x y : Option (List Text))
    → NoSlashes x
    → NoSlashes y
    → NoSlashes (if b then x else y)
if-NoSlashes true x y h k = h
if-NoSlashes false x y h k = k

expand_levels-NoSlashes :
    (u c : Text) (ls : List Text)
    → NoSlash u
    → NoSlash c
    → All NoSlash ls
    → NoSlashes (expand_levels u c ls)
unfolding expand_levels
expand_levels-NoSlashes u c [] hu hc h = tt
expand_levels-NoSlashes u c (l ∷ ls) hu hc h =
    let rest = expand_levels-NoSlashes u c ls hu hc h.1 in
    if-NoSlashes (l == codes "%u") _ _
      (if-NoSlashes (is_empty u) none _ tt (cons_level-NoSlashes u _ hu rest))
      (if-NoSlashes (l == codes "%c") _ _
        (if-NoSlashes (is_empty c) none _ tt (cons_level-NoSlashes c _ hc rest))
        (cons_level-NoSlashes l _ h.0 rest))

matches_expanded-fits :
    (l : Text) (ls : List Text) (topic : Text)
    → All NoSlash (l ∷ ls)
    → IsFilter (l ∷ ls)
    → NoNewline topic
    → matches_expanded (join (codes "/") (l ∷ ls)) topic false ≡ (
        not (crosses_boundary (join (codes "/") (l ∷ ls)) topic)
        && fits (l ∷ ls) (split_on slash topic))
unfolding matches_expanded
matches_expanded-fits l ls topic ns f n =
    let back = split_on-join l ls ns in
    rw (matches-topic_expression (join (codes "/") (l ∷ ls)) topic (rw back f) n, back)
      (ground arith)

-- For a user name and a client id without a slash, a topic without a newline, and a pattern that
-- expands to a well-formed filter, the topic matches exactly if the `$` boundary is kept, the filter
-- accepts the topic's levels as in MQTT, and no level "+" before a final "#" stands against an empty
-- level, which MQTT would accept.
pub topic_matches-accepts :
    (pattern topic u c : Text) (l : Text) (ls : List Text)
    → NoSlash u
    → NoSlash c
    → NoNewline topic
    → expand_levels u c (split_on slash pattern) ≡ some (l ∷ ls)
    → IsFilter (l ∷ ls)
    → topic_matches pattern topic u c false ≡ (
        not (crosses_boundary (join (codes "/") (l ∷ ls)) topic)
        && (accepts (l ∷ ls) (split_on slash topic)
            && not (meets_empty (l ∷ ls) (split_on slash topic))))
unfolding topic_matches
topic_matches-accepts pattern topic u c l ls hu hc n e f =
    let ns =
      expand_levels-NoSlashes u c (split_on slash pattern) hu hc (split_on-NoSlash pattern) in
    rw e (
      matches_expanded-fits l ls topic (rw e at ns) f n
      ∙ ap (λ b. not (crosses_boundary (join (codes "/") (l ∷ ls)) topic) && b)
          (fits-accepts (l ∷ ls) (split_on slash topic)))

matches_expanded_boundary :
    (p topic : Text) (b : Bool)
    → crosses_boundary p topic ≡ true
    → matches_expanded p topic b ≡ false
unfolding matches_expanded
matches_expanded_boundary p topic b h = rw h refl

-- A system topic, one that begins with "$", is matched only by a pattern whose expansion begins
-- with "$", as a filter and as a literal.
pub topic_matches_system :
    (pattern topic u c : Text) (b : Bool)
    → starts_with topic (codes "$") ≡ true
    → topic_matches pattern topic u c b ≡ true
    → (ls : List Text) × (expand_levels u c (split_on slash pattern) ≡ some ls)
      × (starts_with (join (codes "/") ls) (codes "$") ≡ true)
unfolding topic_matches
topic_matches_system pattern topic u c b s h =
    elim (Option-cases (expand_levels u c (split_on slash pattern))) [
      | inl e ↦ absurd (false≢true (rw e at h))
      | inr (ls, e) ↦ (
        ls,
        e,
        elim (Bool-cases (starts_with (join (codes "/") ls) (codes "$"))) [
          | inl p ↦ p
          | inr p ↦
              absurd (
                false≢true (sym (matches_expanded_boundary _ topic b (rw (s, p) refl)) ∙ rw e at h))
        ],
      )
    ]

-- The pattern names a part of the identity that is empty.
abbrev pub NamesNothing : Text → Text → List Text → Type 0
NamesNothing u c ls = (Memᴰ (codes "%u") ls × (u ≡ [])) ⊎ (Memᴰ (codes "%c") ls × (c ≡ []))

expand_levels_unnamed :
    (u c : Text) (ls : List Text) → NamesNothing u c ls → expand_levels u c ls ≡ none
unfolding expand_levels ◌==◌
expand_levels_unnamed u c [] (inl (m, e)) = elim m [ ]
expand_levels_unnamed u c [] (inr (m, e)) = elim m [ ]
expand_levels_unnamed u c (l ∷ ls) (inl (Memᴰ.head p, e)) = rw (← p, e) refl
expand_levels_unnamed u c (l ∷ ls) (inr (Memᴰ.head p, e)) = rw (← p, e) refl
expand_levels_unnamed u c (l ∷ ls) (inl (Memᴰ.tail m, e)) =
    rw (expand_levels_unnamed u c ls (inl (m, e))) (ground arith)
expand_levels_unnamed u c (l ∷ ls) (inr (Memᴰ.tail m, e)) =
    rw (expand_levels_unnamed u c ls (inr (m, e))) (ground arith)

-- A pattern with a level %u for an empty user name, or %c for an empty client id, matches nothing.
pub topic_matches_unnamed :
    (pattern topic u c : Text) (b : Bool)
    → NamesNothing u c (split_on slash pattern)
    → topic_matches pattern topic u c b ≡ false
unfolding topic_matches
topic_matches_unnamed pattern topic u c b m =
    rw (expand_levels_unnamed u c (split_on slash pattern) m)

expanded_hash :
    (topic c : Text)
    → topic_matches (codes "%u") topic (codes "#") c false
      ≡ matches_expanded (join (codes "/") (codes "#" ∷ [])) topic false
unfolding topic_matches split_on ◌==◌
expanded_hash topic c = refl

-- A user name is put into the pattern as it is, wildcards included: for a user who is named "#"
-- the pattern "%u" matches every topic without a newline that is no system topic.
pub topic_matches_wildcard_name :
    (topic c : Text)
    → NoNewline topic
    → starts_with topic (codes "$") ≡ false
    → topic_matches (codes "%u") topic (codes "#") c false ≡ true
topic_matches_wildcard_name topic c n s =
    expanded_hash topic c
    ∙ matches_expanded-fits (codes "#") [] topic ((refl, tt), tt) tt n
    ∙ rw (s, split_on-eq-cons) (unfold fits ◌==◌ in refl)
