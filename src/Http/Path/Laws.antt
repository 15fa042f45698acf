-- ===== src/Http/Path/Laws.antt =====
-- What normalize_path guarantees of every path that it accepts.
use x_server.Prelude.{
  ℕ, suc, ◌≤◌, ◌≡◌, refl, ◌⊎◌, inl, inr, true, false, Option, none, some, [], ◌∷◌, ◌==◌, arith,
  length, All, Bool-cases, Option-cases,
}
use x_server.Text.{Bytes, codes, c_string, contains, starts_with}
use x_server.Http.Path.{
  has_control, decode, squeeze, with_slash, or_root, normalize_decoded, normalize_path, emit,
  decode_escape,
}

-- A byte that the check lets through: no control character below the space, and none above DEL. DEL
-- itself passes.
abbrev pub IsPathByte : ℕ → Type 0
IsPathByte c = (32 ≤ c) × (c ≤ 127)

-- The shape of an accepted path.
pub record IsSafe (q : Bytes) : Type 0 where
  pub rooted : starts_with q (codes "/") ≡ true
  pub no_climb : contains q (codes "./") ≡ false
  pub bytes : All IsPathByte q

squeeze_head :
    (d : ℕ) (t : Bytes)
    → starts_with (squeeze (d ∷ t)) (codes "/") ≡ true
    → ((d == b'/') ≡ true) ⊎ (starts_with (d ∷ t) (codes "./") ≡ true)
unfolding squeeze starts_with
squeeze_head d [] h = ground arith
squeeze_head d (e ∷ s) h = ground arith

squeeze_no_climb :
    (d : Bytes) → contains d (codes "../") ≡ false → contains (squeeze d) (codes "./") ≡ false
unfolding squeeze contains
squeeze_no_climb [] h = refl
squeeze_no_climb (c ∷ []) h = ground arith
squeeze_no_climb (c ∷ d ∷ s) h =
    ground (arith, squeeze_no_climb (d ∷ s), squeeze_no_climb s, squeeze_head d s)

squeeze-IsPathByte : (d : Bytes) → has_control d ≡ false → All IsPathByte (squeeze d)
unfolding squeeze has_control
squeeze-IsPathByte [] h = tt
squeeze-IsPathByte (c ∷ []) h = ground arith
squeeze-IsPathByte (c ∷ d ∷ s) h = ground (arith, squeeze-IsPathByte (d ∷ s), squeeze-IsPathByte s)

squeeze_rooted :
    (c : ℕ) (s : Bytes)
    → (c == b'/') ≡ true
    → starts_with (or_root (squeeze (c ∷ s))) (codes "/") ≡ true
unfolding squeeze starts_with
squeeze_rooted c [] h = ground arith
squeeze_rooted c (d ∷ s) h = ground (arith, squeeze_rooted d s)

length-squeeze : (d : Bytes) → length (squeeze d) ≤ length d
unfolding squeeze
length-squeeze [] = omega arith
length-squeeze (c ∷ []) = ground arith
length-squeeze (c ∷ d ∷ s) = ground (arith, length-squeeze (d ∷ s), length-squeeze s)

-- A text, if there is one, of at most `n` bytes.
abbrev Within : ℕ → Option Bytes → Type 0
Within n none = Unit
Within n (some d) = length d ≤ n

emit-Within : (c n : ℕ) (o : Option Bytes) → Within n o → Within (suc n) (emit c o)
emit-Within c n none h = tt
emit-Within c n (some d) h = omega arith

decode_escape-Within :
    (a b n : ℕ) (past rest : Option Bytes)
    → Within n past
    → Within (suc (suc n)) rest
    → Within (suc (suc (suc n))) (decode_escape a b past rest)
decode_escape-Within a b n none none h k = ground arith
decode_escape-Within a b n none (some r) h k = ground arith
decode_escape-Within a b n (some q) none h k = ground arith
decode_escape-Within a b n (some q) (some r) h k = ground arith

decode-Within : (p : Bytes) → Within (length p) (decode p)
unfolding decode
decode-Within [] = omega arith
decode-Within (c ∷ []) = omega arith
decode-Within (c ∷ a ∷ []) = omega arith
decode-Within (c ∷ a ∷ b ∷ s) = elim (Bool-cases (c == b'%')) [
  | inl e ↦
      rw e (decode_escape-Within a b (length s) _ _ (decode-Within s) (decode-Within (a ∷ b ∷ s)))
  | inr e ↦ rw e (emit-Within c _ _ (decode-Within (a ∷ b ∷ s)))
]

length-decode : (p : Bytes) {d : Bytes} → decode p ≡ some d → length d ≤ length p
length-decode p h = rw h at (decode-Within p)

length-c_string : (s : Bytes) → length (c_string s) ≤ length s
unfolding c_string
length-c_string [] = omega arith
length-c_string (c ∷ s) = ground (arith, length-c_string s)

with_slash_rooted :
    (d : Bytes) → starts_with (or_root (with_slash d (squeeze d))) (codes "/") ≡ true
unfolding starts_with
with_slash_rooted [] = refl
with_slash_rooted (c ∷ s) = ground (arith, squeeze_rooted c s)

no_climb-cons_slash : (s : Bytes) → contains (b'/' ∷ s) (codes "./") ≡ contains s (codes "./")
unfolding contains
no_climb-cons_slash s = ground arith

normalized_no_climb :
    (d out : Bytes)
    → contains out (codes "./") ≡ false
    → contains (or_root (with_slash d out)) (codes "./") ≡ false
unfolding contains
normalized_no_climb [] out h = ground arith
normalized_no_climb (c ∷ s) [] h = ground arith
normalized_no_climb (c ∷ s) (o ∷ out) h = ground arith

normalized-IsPathByte :
    (d out : Bytes) → All IsPathByte out → All IsPathByte (or_root (with_slash d out))
normalized-IsPathByte [] out h = (omega arith, h)
normalized-IsPathByte (c ∷ s) [] h = ground arith
normalized-IsPathByte (c ∷ s) (o ∷ out) h = ground arith

length-normalized :
    (d out : Bytes) → length out ≤ length d → length (or_root (with_slash d out)) ≤ suc (length d)
length-normalized [] out h = omega arith
length-normalized (c ∷ s) [] h = ground arith
length-normalized (c ∷ s) (o ∷ out) h = ground arith

normalize_decoded-IsSafe :
    (d : Bytes) {q : Bytes} → normalize_decoded d ≡ some q → IsSafe q × (length q ≤ suc (length d))
unfolding normalize_decoded
normalize_decoded-IsSafe d h = ground (
  arith,
  with_slash_rooted d,
  normalized_no_climb d (squeeze d),
  squeeze_no_climb d,
  normalized-IsPathByte d (squeeze d),
  squeeze-IsPathByte d,
  length-normalized d (squeeze d) (length-squeeze d),
)

root-IsSafe : IsSafe (codes "/")
unfolding contains starts_with
root-IsSafe = record { rooted = refl; no_climb = refl; bytes = omega arith }

pub normalize_path-IsSafe :
    (path : Bytes) {q : Bytes}
    → normalize_path path ≡ some q
    → IsSafe q × (length q ≤ suc (length path))
unfolding normalize_path
normalize_path-IsSafe path {q} h = elim (Option-cases (decode path)) [
  | inl e ↦ ground (arith, root-IsSafe)
  | inr (d, e) ↦ ground (
    arith,
    root-IsSafe,
    normalize_decoded-IsSafe (c_string d) {q = q},
    length-c_string d,
    length-decode path e,
  )
]
