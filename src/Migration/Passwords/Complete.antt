-- ===== src/Migration/Passwords/Complete.antt =====
-- What scripts/migrate_dynsec.py reads from a password file: every identity of the file.
use mqtt_broker_stack.Common.{
  ℕ, suc, Text, Dict, get, put, has_key, has_key-put, put-HasUniqueKeys, HasUniqueKeys, ◌≡◌, ◌⊎◌,
  inl, inr, refl, sym, ap, ◌∙◌, true, false, not, Option, none, some, List, [], ◌∷◌, ◌++◌, Memᴰ,
  arith, ◌==◌, eq_iff, eq_refl, is_empty, strip, splitlines, split_once, sort_by, text_leb,
  Bool-cases, if◌then◌else◌,
}
use mqtt_broker_stack.Migration.{
  returned, >>=-eq-returned, >>-eq-returned, is_name, invalid_username, duplicate_password,
  rotation_required, no_identities,
}
use mqtt_broker_stack.Migration.Passwords.{
  Digits, Credential, Client, Passwords, add_client, is_skipped, credential_of, password_entry,
  password_line, password_lines, check_passwords, parse_password_file,
}

-- The identity that a line of the file names.
unfoldable pub identity_of : Text → Option Text
unfolding is_skipped split_once strip
identity_of raw_line =
    if is_skipped (strip raw_line) then none else (elim (split_once b':' (strip raw_line)) [
      | none ↦ none
      | some (username, password_hash) ↦ some username
    ])

-- A table of clients: each under its own name, which is valid.
abbrev pub AreClients : Dict Client → Type 0
AreClients [] = Unit
AreClients ((k, c) ∷ d) = (c.username ≡ k) × (is_name k ≡ true) × AreClients d

put-AreClients :
    (k : Text) (c : Client) (d : Dict Client)
    → c.username ≡ k
    → is_name k ≡ true
    → AreClients d
    → AreClients (put k c d)
unfolding put
put-AreClients k c [] e n h = (e, n, tt)
put-AreClients k c ((j, b) ∷ d) e n h = elim (Bool-cases (j == k)) [
  | inl t ↦ let same = (eq_iff j k).0 t in rw t (e ∙ sym same, rw same n, h.2)
  | inr f ↦ rw f (h.0, h.1, put-AreClients k c d e n h.2)
]

pub get-AreClients :
    (k : Text) (c : Client) (d : Dict Client)
    → AreClients d
    → get k d ≡ some c
    → (c.username ≡ k) × (is_name k ≡ true)
unfolding get
get-AreClients k c [] h e = ground arith
get-AreClients k c ((j, b) ∷ d) h e = elim (Bool-cases (j == k)) [
  | inl t ↦
      let same = (eq_iff j k).0 t in
      let at : b ≡ c = ground arith in (rw (← at) (h.0 ∙ same), rw (← same) h.1)
  | inr f ↦ get-AreClients k c d h.2 (ground arith)
]

pub record AreValid (p : Passwords) : Type 0 where
  pub clients : AreClients p.clients
  pub unique : HasUniqueKeys p.clients

-- The identity is a client or must be rotated.
abbrev Seen : Text → Passwords → Type 0
Seen u p = (has_key u p.clients ≡ true) ⊎ (is_empty p.rotation ≡ false)

is_empty-append : (ts : List Text) (t : Text) → is_empty (ts ++ t ∷ []) ≡ false
is_empty-append [] t = refl
is_empty-append (s ∷ ts) t = refl

add_client-AreValid :
    (u : Text) (c : Option Credential) (p : Passwords)
    → is_name u ≡ true
    → AreValid p
    → AreValid (add_client u c p)
add_client-AreValid u none p n v = record { clients = v.clients; unique = v.unique }
add_client-AreValid u (some c) p n v = record {
  clients = put-AreClients u (record { username = u; credential = c }) p.clients refl n v.clients;
  unique = put-HasUniqueKeys u (record { username = u; credential = c }) p.clients v.unique;
}

add_client-Seen : (u : Text) (c : Option Credential) (p : Passwords) → Seen u (add_client u c p)
add_client-Seen u none p = inr (is_empty-append p.rotation u)
add_client-Seen u (some c) p =
    inl (rw (has_key-put u u (record { username = u; credential = c }) p.clients, eq_refl u) refl)

add_client-keeps :
    (t u : Text) (c : Option Credential) (p : Passwords) → Seen t p → Seen t (add_client u c p)
add_client-keeps t u none p (inl h) = inl h
add_client-keeps t u none p (inr h) = inr (is_empty-append p.rotation u)
add_client-keeps t u (some c) p (inl h) =
    inl (has_key-put u t (record { username = u; credential = c }) p.clients ∙ ground arith)
add_client-keeps t u (some c) p (inr h) = inr h

module _ (digits : Digits) where
  -- What one line does.
  record Read (raw_line : Text) (p q : Passwords) : Type 0 where
    valid : AreValid p → AreValid q
    keeps : (t : Text) → Seen t p → Seen t q
    sees : (u : Text) → identity_of raw_line ≡ some u → Seen u q

  password_entry_returned :
      (number : ℕ) (u h : Text) (p q : Passwords)
      → password_entry digits number (some (u, h)) p ≡ returned q
      → (c : Option Credential) × (is_name u ≡ true) × (add_client u c p ≡ q)
  unfolding password_entry
  password_entry_returned number u h p q e =
      let (n, e1) = >>-eq-returned (not (is_name u)) (invalid_username number u) _ e in
      let (d, e2) = >>-eq-returned (has_key u p.clients) (duplicate_password u) _ e1 in
      let (c, m, e3) =
        >>=-eq-returned (credential_of digits h) (λ c. returned (add_client u c p)) e2 in
      (c, ground arith, cc e3)

  Read-of_entry :
      (number : ℕ) (raw_line : Text) (p q : Passwords) (o : Option (Text × Text))
      → is_skipped (strip raw_line) ≡ false
      → split_once b':' (strip raw_line) ≡ o
      → password_entry digits number o p ≡ returned q
      → Read raw_line p q
  unfolding identity_of
  Read-of_entry number raw_line p q none f s e = absurd (unfold password_entry in ground arith)
  Read-of_entry number raw_line p q (some (u, h)) f s e =
      let (c, n, m) = password_entry_returned number u h p q e in
      rw (← m) (record {
        valid = add_client-AreValid u c p n;
        keeps = λ t k. add_client-keeps t u c p k;
        sees = λ t i. (let same : u ≡ t = ground arith in rw (← same) (add_client-Seen u c p));
      })

  password_line-Read :
      (number : ℕ) (raw_line : Text) (p q : Passwords)
      → password_line digits number (strip raw_line) p ≡ returned q
      → Read raw_line p q
  unfolding password_line identity_of
  password_line-Read number raw_line p q e = elim (Bool-cases (is_skipped (strip raw_line))) [
    | inl t ↦
        let same : p ≡ q = ground arith in
        rw (← same) (record { valid = λ v. v; keeps = λ _ k. k; sees = λ u i. ground arith })
    | inr f ↦
        Read-of_entry number raw_line p q (split_once b':' (strip raw_line)) f refl (ground arith)
  ]

  record ReadAll (lines : List Text) (p q : Passwords) : Type 0 where
    valid : AreValid p → AreValid q
    keeps : (t : Text) → Seen t p → Seen t q
    sees : (u raw_line : Text) → Memᴰ raw_line lines → identity_of raw_line ≡ some u → Seen u q

  password_lines-ReadAll :
      (number : ℕ) (lines : List Text) (p q : Passwords)
      → password_lines digits number lines p ≡ returned q
      → ReadAll lines p q
  unfolding password_lines
  password_lines-ReadAll number [] p q e =
      let same : p ≡ q = cc e in
      rw (← same) (record { valid = λ v. v; keeps = λ _ k. k; sees = λ u raw_line m i. elim m [ ] })
  password_lines-ReadAll number (raw_line ∷ lines) p q e =
      let (o, e1, e2) =
        >>=-eq-returned (password_line digits number (strip raw_line) p)
          (λ o. password_lines digits (suc number) lines o) e in
      let first = password_line-Read number raw_line p o e1 in
      let rest = password_lines-ReadAll (suc number) lines o q e2 in
      record {
        valid = λ v. rest.valid (first.valid v);
        keeps = λ t k. rest.keeps t (first.keeps t k);
        sees = λ u line m i. elim m [
          | Memᴰ.head s ↦ rest.keeps u (first.sees u (ap identity_of (sym s) ∙ i))
          | Memᴰ.tail n ↦ rest.sees u line n i
        ];
      }

  -- What a password file that is accepted gives.
  pub record IsRead (file : Text) (clients : Dict Client) : Type 0 where
    pub named : AreClients clients
    pub unique : HasUniqueKeys clients
    pub some_client : is_empty clients ≡ false

  check_passwords-returned :
      (p : Passwords) (clients : Dict Client)
      → check_passwords p ≡ returned clients
      → (p.clients ≡ clients) × (is_empty p.rotation ≡ true) × (is_empty p.clients ≡ false)
  check_passwords-returned p clients e =
      let (r, e1) =
        >>-eq-returned (not (is_empty p.rotation)) (rotation_required (sort_by text_leb p.rotation))
          _ e in
      let (n, e2) = >>-eq-returned (is_empty p.clients) no_identities _ e1 in
      (cc e2, ground arith, n)

  file_passwords :
      (file : Text) (clients : Dict Client)
      → parse_password_file digits file ≡ returned clients
      → (p : Passwords) × ReadAll (splitlines file) (record { clients = []; rotation = [] }) p
        × (p.clients ≡ clients)
        × (is_empty p.rotation ≡ true)
        × (is_empty p.clients ≡ false)
  unfolding parse_password_file
  file_passwords file clients e =
      let (p, e1, e2) =
        >>=-eq-returned
          (password_lines digits 1 (splitlines file) (record { clients = []; rotation = [] }))
          check_passwords e in
      let (same, r, n) = check_passwords-returned p clients e2 in
      (p, password_lines-ReadAll 1 (splitlines file) _ p e1, same, r, n)

  pub parse_password_file-IsRead :
      (file : Text) (clients : Dict Client)
      → parse_password_file digits file ≡ returned clients
      → IsRead file clients
  parse_password_file-IsRead file clients e =
      let (p, all_lines, same, r, n) = file_passwords file clients e in
      let v = all_lines.valid (record { clients = tt; unique = tt }) in
      rw (← same) (record { named = v.clients; unique = v.unique; some_client = n })

  -- If a password file is accepted, every identity that one of its lines names is a client of the result:
  -- none is dropped, also not one whose hash cannot be migrated. Each client stands under its own name,
  -- which is valid, and once.
  pub parse_password_file_complete :
      (file : Text) (clients : Dict Client) (raw_line u : Text)
      → parse_password_file digits file ≡ returned clients
      → Memᴰ raw_line (splitlines file)
      → identity_of raw_line ≡ some u
      → (has_key u clients ≡ true) × IsRead file clients
  parse_password_file_complete file clients raw_line u e m i =
      let (p, all_lines, same, r, n) = file_passwords file clients e in
      (
        elim (all_lines.sees u raw_line m i) [
          | inl h ↦ rw (← same) h
          | inr h ↦ absurd (ground arith)
        ],
        parse_password_file-IsRead file clients e,
      )
