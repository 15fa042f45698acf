-- ===== src/Http/Header/Laws.antt =====
-- The invariant of the list of parsed headers, and what one header line does to it.
use x_server.Prelude.{
  ℕ, suc, ◌+◌, ◌≤◌, ◌<◌, ◌≡◌, refl, ◌⊎◌, inl, inr, true, false, List, [], ◌∷◌, ◌++◌, arith, length,
  length-append, All, All-append, if◌then◌else◌, Option-cases,
}
use x_server.Text.{Bytes, strcasecmp_eq, split_at, c_string}
use x_server.Text.Case.{strcasecmp_join, strcasecmp_trans}
use x_server.Http.Header.{
  Header, Outcome, max_headers, critical_headers, is_listed, has_header, all_bytes, is_name_byte,
  is_value_byte, check_header, parse_header_line, trim_start, trim_end,
}

-- A header that may stand in a request: a name of visible characters, and a value without a line
-- break or another control character.
pub record IsClean (h : Header) : Type 0 where
  pub name_length : (0 < length h.name) × (length h.name ≤ 256)
  pub name_bytes : all_bytes is_name_byte h.name ≡ true
  pub value_length : (0 < length h.value) × (length h.value ≤ 8192)
  pub value_bytes : all_bytes is_value_byte h.value ≡ true

pub count_named : Bytes → List Header → ℕ
count_named key [] = 0
count_named key (h ∷ hs) =
    if strcasecmp_eq h.name key then suc (count_named key hs) else count_named key hs

pub record IsValid (hs : List Header) : Type 0 where
  pub limited : length hs ≤ max_headers
  pub clean : All IsClean hs
  pub once : (key : Bytes) → is_listed key critical_headers ≡ true → count_named key hs ≤ 1

pub nil-IsValid : IsValid []
unfolding count_named
nil-IsValid = record { limited = omega arith; clean = tt; once = λ key h. omega arith }

count_named-append :
    (key : Bytes) (hs : List Header) (h : Header)
    → count_named key (hs ++ h ∷ [])
      ≡ count_named key hs + (if strcasecmp_eq h.name key then 1 else 0)
unfolding count_named
count_named-append key [] h = ground arith
count_named-append key (x ∷ hs) h = ground (arith, count_named-append key hs h)

-- No header of the list has a name that agrees with one that the list lacks.
count_named-none :
    (key name : Bytes) (hs : List Header)
    → has_header hs name ≡ false
    → strcasecmp_eq name key ≡ true
    → count_named key hs ≡ 0
unfolding count_named has_header
count_named-none key name [] h k = refl
count_named-none key name (x ∷ hs) h k =
    ground (arith, count_named-none key name hs, strcasecmp_join x.name name key)

is_listed-join :
    (name key : Bytes) (ks : List Bytes)
    → strcasecmp_eq name key ≡ true
    → is_listed key ks ≡ true
    → is_listed name ks ≡ true
unfolding is_listed
is_listed-join name key [] h k = cc
is_listed-join name key (x ∷ ks) h k =
    ground (arith, strcasecmp_trans name key x, is_listed-join name key ks)

take_facts :
    (hs : List Header) (name value : Bytes) {h : Header}
    → check_header hs name value ≡ Outcome.take h
    → (h ≡ record { name = name; value = value })
      × IsClean (record { name = name; value = value })
      × (length hs < max_headers)
      × ((is_listed name critical_headers ≡ false) ⊎ (has_header hs name ≡ false))
unfolding check_header
take_facts hs name value e = ground arith

count_named-take :
    (hs : List Header) (h : Header) (key : Bytes)
    → count_named key hs ≤ 1
    → (is_listed h.name critical_headers ≡ false) ⊎ (has_header hs h.name ≡ false)
    → is_listed key critical_headers ≡ true
    → count_named key (hs ++ h ∷ []) ≤ 1
count_named-take hs h key once free listed = ground (
  arith,
  count_named-append key hs h,
  is_listed-join h.name key critical_headers,
  count_named-none key h.name hs,
)

append-IsValid :
    (hs : List Header) (h : Header)
    → IsValid hs
    → IsClean h
    → length hs < max_headers
    → (is_listed h.name critical_headers ≡ false) ⊎ (has_header hs h.name ≡ false)
    → IsValid (hs ++ h ∷ [])
append-IsValid hs h v clean room free = record {
  limited = omega (arith, length-append {0} hs (h ∷ []));
  clean = All-append IsClean hs (h ∷ []) v.clean (clean, tt);
  once = λ key listed. count_named-take hs h key (v.once key listed) free listed;
}

check_header-IsValid :
    (hs : List Header) (name value : Bytes) {h : Header}
    → IsValid hs
    → check_header hs name value ≡ Outcome.take h
    → IsValid (hs ++ h ∷ [])
check_header-IsValid hs name value v e =
    let (same, clean, room, free) = take_facts hs name value e in
    rw same (append-IsValid hs _ v clean room free)

-- A header that a line adds keeps the list valid: at most 100 headers, each with a name and a value
-- of the allowed bytes and lengths, and none of the critical ones twice.
pub parse_header_line-IsValid :
    (hs : List Header) (line : Bytes) {h : Header}
    → IsValid hs
    → parse_header_line hs line ≡ Outcome.take h
    → IsValid (hs ++ h ∷ [])
unfolding parse_header_line
parse_header_line-IsValid hs line v e = elim (Option-cases (split_at b':' (c_string line))) [
  | inl gone ↦ cc (rw (gone, parse_header_line) at e)
  | inr ((name, value), found) ↦
      check_header-IsValid hs (trim_end (trim_start name)) (trim_end (trim_start value)) v
        (rw (found, parse_header_line) at e)
]
