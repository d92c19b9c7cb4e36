-- ===== src/Migration/Owners/Coverage.antt =====
-- What scripts/migrate_dynsec.py accepts as an ownership table: an owner and a group for each identity.
use mqtt_broker_stack.Common.{
  Text, Dict, put, has_key, put-HasUniqueKeys, HasUniqueKeys, keys, ◌≡◌, inl, inr, refl, sym, ◌∙◌,
  ap, map, ◌++◌, append_assoc, append-nil, codes, Bool, true, false, ◌||◌, not, List, [], ◌∷◌, Memᴰ,
  arith, ◌==◌, eq_iff, is_empty, is_empty_of_mem, file_lines, keep, mem-keep, one_of, sort_by,
  mem-sort_by, text_leb, Bool-cases,
}
use mqtt_broker_stack.Migration.{
  returned, >>=-eq-returned, >>-eq-returned, is_name, invalid_header, empty_owner_field,
  invalid_group, duplicate_owner,
}
use mqtt_broker_stack.Migration.Owners.{
  Owner, Row, row_of, owner_row, owner_rows, sorted_difference, check_coverage, is_header,
  owners_of, parse_owners, csv_records, fresh,
}

pub one_of-mem : (u : Text) (ts : List Text) → one_of u ts ≡ true → Memᴰ u ts
one_of-mem u [] h = cc
one_of-mem u (t ∷ ts) h = elim (Bool-cases (u == t)) [
  | inl e ↦ Memᴰ.head ((eq_iff u t).0 e)
  | inr f ↦ Memᴰ.tail (one_of-mem u ts (ground arith))
]

pub mem-one_of : (u : Text) (ts : List Text) → Memᴰ u ts → one_of u ts ≡ true
mem-one_of u [] m = elim m [ ]
mem-one_of u (t ∷ ts) (Memᴰ.head e) = ground (arith, eq_iff u t)
mem-one_of u (t ∷ ts) (Memᴰ.tail m) = ground (arith, mem-one_of u ts m)

pub one_of-keys {ℓ} : {V : Type ℓ} (u : Text) (d : Dict V) → one_of u (keys d) ≡ has_key u d
unfolding has_key
one_of-keys u [] = refl
one_of-keys u ((k, v) ∷ d) = ground (arith, eq_iff u k, eq_iff k u, one_of-keys u d)

-- An empty difference is an inclusion.
pub sorted_difference-empty :
    (xs ys : List Text) (u : Text)
    → is_empty (sorted_difference xs ys) ≡ true
    → one_of u xs ≡ true
    → one_of u ys ≡ true
unfolding sorted_difference
sorted_difference-empty xs ys u h m = elim (Bool-cases (one_of u ys)) [
  | inl t ↦ t
  | inr f ↦
      let found =
        mem-sort_by text_leb (keep (λ x. not (one_of x ys)) xs)
          (mem-keep (λ x. not (one_of x ys)) xs (one_of-mem u xs m) (rw f refl)) in
      cc (h, is_empty_of_mem (sort_by text_leb (keep (λ x. not (one_of x ys)) xs)) found)
]

-- Owners and groups are given, and a group has a valid name.
abbrev pub AreOwners : Dict Owner → Type 0
AreOwners [] = Unit
AreOwners ((k, o) ∷ d) = (is_empty o.owner ≡ false) × (is_name o.group ≡ true) × AreOwners d

put-AreOwners :
    (k : Text) (o : Owner) (d : Dict Owner)
    → is_empty o.owner ≡ false
    → is_name o.group ≡ true
    → AreOwners d
    → AreOwners (put k o d)
unfolding put
put-AreOwners k o [] e n h = (e, n, tt)
put-AreOwners k o ((j, b) ∷ d) e n h = elim (Bool-cases (j == k)) [
  | inl t ↦ rw t (e, n, h.2)
  | inr f ↦ rw f (h.0, h.1, put-AreOwners k o d e n h.2)
]

pub record AreRead (d : Dict Owner) : Type 0 where
  pub owners : AreOwners d
  pub unique : HasUniqueKeys d

-- The item of a row.
abbrev pub entry_of : Row → Text × Owner
entry_of row = (row.username, record { owner = row.owner; group = row.group })

put-eq-append :
    {V : Type 0} (k : Text) (v : V) (d : Dict V)
    → has_key k d ≡ false
    → put k v d ≡ d ++ (k, v) ∷ []
unfolding has_key put
put-eq-append k v [] h = refl
put-eq-append k v ((j, w) ∷ d) h =
    let here : j == k ≡ false = ground arith in
    rw here (ap (λ l. (j, w) ∷ l) (put-eq-append k v d (ground arith)))

owner_row-AreRead :
    (row : Row) (d d' : Dict Owner)
    → owner_row row d ≡ returned d'
    → AreRead d
    → AreRead d' × (d' ≡ d ++ entry_of row ∷ [])
unfolding owner_row
owner_row-AreRead row d d' e r =
    let (n, e1) =
      >>-eq-returned (is_empty row.username || is_empty row.owner || is_empty row.group)
        empty_owner_field _ e in
    let (g, e2) = >>-eq-returned (not (is_name row.group)) (invalid_group row.group) _ e1 in
    let (k, e3) = >>-eq-returned (has_key row.username d) (duplicate_owner row.username) _ e2 in
    let same : put row.username (record { owner = row.owner; group = row.group }) d ≡ d' = cc e3 in
    (
      rw (← same) (record {
        owners =
            put-AreOwners row.username (record { owner = row.owner; group = row.group }) d
              (ground arith) (ground arith) r.owners;
        unique =
            put-HasUniqueKeys row.username (record { owner = row.owner; group = row.group }) d
              r.unique;
      }),
      sym same ∙ put-eq-append row.username _ d k,
    )

owner_rows-AreRead :
    (rows : List (List Text)) (d d' : Dict Owner)
    → owner_rows rows d ≡ returned d'
    → AreRead d
    → AreRead d' × (d' ≡ d ++ map (λ fs. entry_of (row_of fs)) rows)
unfolding owner_rows
owner_rows-AreRead [] d d' e r =
    let same : d ≡ d' = cc e in (rw (← same) r, sym same ∙ sym (append-nil d))
owner_rows-AreRead (fields ∷ rows) d d' e r =
    let (m, e1, e2) = >>=-eq-returned (owner_row (row_of fields) d) (λ m. owner_rows rows m) e in
    let (first, q) = owner_row-AreRead (row_of fields) d m e1 r in
    let (all, p) = owner_rows-AreRead rows m d' e2 first in
    (
      all,
      p
          ∙ ap (λ l. l ++ map (λ fs. entry_of (row_of fs)) rows) q
          ∙ append_assoc d (entry_of (row_of fields) ∷ []) (map (λ fs. entry_of (row_of fs)) rows),
    )

check_coverage-returned :
    (usernames : List Text) (d d' : Dict Owner)
    → check_coverage usernames d ≡ returned d'
    → (d ≡ d')
      × (is_empty (sorted_difference usernames (keys d)) ≡ true)
      × (is_empty (sorted_difference (keys d) usernames) ≡ true)
unfolding check_coverage
check_coverage-returned usernames d d' e = ground arith

Bool-eq : (a b : Bool) → (a ≡ true → b ≡ true) → (b ≡ true → a ≡ true) → a ≡ b
Bool-eq true b f g = sym (f refl)
Bool-eq false true f g = g refl
Bool-eq false false f g = refl

covers_all :
    (usernames : List Text) (d : Dict Owner) (u : Text)
    → is_empty (sorted_difference usernames (keys d)) ≡ true
    → is_empty (sorted_difference (keys d) usernames) ≡ true
    → has_key u d ≡ one_of u usernames
covers_all usernames d u h k =
    sym (one_of-keys u d)
    ∙ Bool-eq (one_of u (keys d)) (one_of u usernames)
        (sorted_difference-empty (keys d) usernames u k)
        (sorted_difference-empty usernames (keys d) u h)

-- The table is a header and one row for each owner, in order; empty records are no rows.
pub record IsTable (table : List (List Text)) (d : Dict Owner) : Type 0 where
  pub header : List Text
  pub records : List (List Text)
  pub read : table ≡ header ∷ records
  pub has_header : header ≡ codes "username" ∷ codes "owner" ∷ codes "group" ∷ []
  pub rows : d ≡ map (λ fs. entry_of (row_of fs)) (keep (λ fs. not (is_empty fs)) records)

is_header-eq :
    (h : List Text) → is_header h ≡ true → h ≡ codes "username" ∷ codes "owner" ∷ codes "group" ∷ []
is_header-eq [] e = cc e
is_header-eq (u ∷ []) e = cc e
is_header-eq (u ∷ o ∷ []) e = cc e
is_header-eq (u ∷ o ∷ g ∷ []) e =
    let a : u ≡ codes "username" = (eq_iff u (codes "username")).0 (ground arith) in
    let b : o ≡ codes "owner" = (eq_iff o (codes "owner")).0 (ground arith) in
    let c : g ≡ codes "group" = (eq_iff g (codes "group")).0 (ground arith) in rw (a, b, c) refl
is_header-eq (u ∷ o ∷ g ∷ x ∷ h) e = cc e

owners_of-covers :
    (table : List (List Text)) (usernames : List Text) (d : Dict Owner) (u : Text)
    → owners_of table usernames ≡ returned d
    → (has_key u d ≡ one_of u usernames) × AreRead d × IsTable table d
unfolding owners_of
owners_of-covers [] usernames d u e = ground arith
owners_of-covers (header ∷ records) usernames d u e =
    let (h, e1) = >>-eq-returned (not (is_header header)) invalid_header _ e in
    let (m, e2, e3) =
      >>=-eq-returned (owner_rows (keep (λ r. not (is_empty r)) records) [])
        (λ m. check_coverage usernames m) e1 in
    let (same, missing, extra) = check_coverage-returned usernames m d e3 in
    let (read, rows) =
      owner_rows-AreRead (keep (λ r. not (is_empty r)) records) [] m e2
        (record { owners = tt; unique = tt }) in
    (
      rw (← same) (covers_all usernames m u missing extra),
      rw (← same) read,
      record {
        header = header;
        records = records;
        read = refl;
        has_header = is_header-eq header (ground arith);
        rows = sym same ∙ rows;
      },
    )

-- If an ownership table is accepted, it is the header and then a row for exactly the given identities:
-- the owners are the rows of the table, in order and none left out, no two of them have the same
-- identity, and every row has an owner and a group with a valid name.
pub parse_owners-covers :
    (file : Text) (usernames : List Text) (d : Dict Owner) (u : Text)
    → parse_owners file usernames ≡ returned d
    → (has_key u d ≡ one_of u usernames)
      × AreRead d
      × IsTable (csv_records fresh (file_lines file)) d
unfolding parse_owners
parse_owners-covers file usernames d u e =
    owners_of-covers (csv_records fresh (file_lines file)) usernames d u e
