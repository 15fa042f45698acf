-- ===== src/Files/Mime.antt =====
-- src/file_handler.c: get_mime_type and its table.
use x_server.Prelude.{
  ◌≡◌, refl, sym, ◌∙◌, inl, inr, true, false, Bool-cases, Option, none, some, List, [], ◌∷◌, ◌++◌,
  ◌==◌, if◌then◌else◌, arith,
}
use x_server.Text.{Bytes, codes, strcasecmp_eq}
use x_server.Text.Case.{strcasecmp_refl, strcasecmp_join, strcasecmp_trans}
use x_server.Files.{has_byte}

-- mime_types: extensions and types.
unfoldable pub mime_types : List (Bytes × Bytes)
mime_types =
    (codes ".html", codes "text/html")
    ∷ (codes ".htm", codes "text/html")
    ∷ (codes ".css", codes "text/css")
    ∷ (codes ".js", codes "application/javascript")
    ∷ (codes ".mjs", codes "application/javascript")
    ∷ (codes ".json", codes "application/json")
    ∷ (codes ".map", codes "application/json")
    ∷ (codes ".jpg", codes "image/jpeg")
    ∷ (codes ".jpeg", codes "image/jpeg")
    ∷ (codes ".png", codes "image/png")
    ∷ (codes ".gif", codes "image/gif")
    ∷ (codes ".svg", codes "image/svg+xml")
    ∷ (codes ".ico", codes "image/x-icon")
    ∷ (codes ".webp", codes "image/webp")
    ∷ (codes ".avif", codes "image/avif")
    ∷ (codes ".bmp", codes "image/bmp")
    ∷ (codes ".tiff", codes "image/tiff")
    ∷ (codes ".txt", codes "text/plain")
    ∷ (codes ".md", codes "text/markdown")
    ∷ (codes ".pdf", codes "application/pdf")
    ∷ (codes ".xml", codes "application/xml")
    ∷ (codes ".doc", codes "application/msword")
    ∷ (
      codes ".docx",
      codes "application/vnd.openxmlformats-officedocument.wordprocessingml.document",
    )
    ∷ (codes ".xls", codes "application/vnd.ms-excel")
    ∷ (codes ".xlsx", codes "application/vnd.openxmlformats-officedocument.spreadsheetml.sheet")
    ∷ (codes ".ppt", codes "application/vnd.ms-powerpoint")
    ∷ (
      codes ".pptx",
      codes "application/vnd.openxmlformats-officedocument.presentationml.presentation",
    )
    ∷ (codes ".zip", codes "application/zip")
    ∷ (codes ".tar", codes "application/x-tar")
    ∷ (codes ".gz", codes "application/gzip")
    ∷ (codes ".bz2", codes "application/x-bzip2")
    ∷ (codes ".7z", codes "application/x-7z-compressed")
    ∷ (codes ".mp3", codes "audio/mpeg")
    ∷ (codes ".wav", codes "audio/wav")
    ∷ (codes ".ogg", codes "audio/ogg")
    ∷ (codes ".flac", codes "audio/flac")
    ∷ (codes ".aac", codes "audio/aac")
    ∷ (codes ".mp4", codes "video/mp4")
    ∷ (codes ".webm", codes "video/webm")
    ∷ (codes ".avi", codes "video/x-msvideo")
    ∷ (codes ".mov", codes "video/quicktime")
    ∷ (codes ".flv", codes "video/x-flv")
    ∷ (codes ".m3u8", codes "application/x-mpegURL")
    ∷ (codes ".ts", codes "video/MP2T")
    ∷ (codes ".woff", codes "font/woff")
    ∷ (codes ".woff2", codes "font/woff2")
    ∷ (codes ".ttf", codes "font/ttf")
    ∷ (codes ".otf", codes "font/otf")
    ∷ (codes ".eot", codes "application/vnd.ms-fontobject")
    ∷ (codes ".wasm", codes "application/wasm")
    ∷ []

-- strrchr (filename, '.')
unfoldable pub last_dot : Bytes → Option Bytes
last_dot [] = none
last_dot (c ∷ s) = elim (last_dot s) [
  | some t ↦ some t
  | none ↦ if c == b'.' then some (c ∷ s) else none
]

-- The loop over the table.
unfoldable pub find_mime_type : List (Bytes × Bytes) → Bytes → Bytes
find_mime_type [] dot = codes "application/octet-stream"
find_mime_type ((extension, mime_type) ∷ rest) dot =
    if strcasecmp_eq dot extension then mime_type else find_mime_type rest dot

unfoldable pub get_mime_type : Bytes → Bytes
get_mime_type filename = elim (last_dot filename) [
  | none ↦ codes "application/octet-stream"
  | some dot ↦ find_mime_type mime_types dot
]

last_dot-none : (s : Bytes) → has_byte b'.' s ≡ false → last_dot s ≡ none
unfolding last_dot has_byte
last_dot-none [] h = refl
last_dot-none (c ∷ s) h = ground (arith, last_dot-none s)

last_dot-append : (s t u : Bytes) → last_dot t ≡ some u → last_dot (s ++ t) ≡ some u
unfolding last_dot
last_dot-append [] t u h = h
last_dot-append (c ∷ s) t u h = rw (last_dot-append s t u h) refl

last_dot-extension :
    (base extension : Bytes)
    → has_byte b'.' extension ≡ false
    → last_dot (base ++ b'.' ∷ extension) ≡ some (b'.' ∷ extension)
unfolding last_dot
last_dot-extension base extension h =
    last_dot-append base (b'.' ∷ extension) _ (rw (last_dot-none extension h) refl)

same_test : (s t u : Bytes) → strcasecmp_eq s t ≡ true → strcasecmp_eq s u ≡ strcasecmp_eq t u
same_test s t u h = elim (Bool-cases (strcasecmp_eq t u)) [
  | inl e ↦ strcasecmp_trans s t u h e ∙ sym e
  | inr e ↦ elim (Bool-cases (strcasecmp_eq s u)) [
    | inr k ↦ k ∙ sym e
    | inl k ↦ k ∙ sym (strcasecmp_trans t s u (strcasecmp_join t s t (strcasecmp_refl t) h) k)
  ]
]

find_mime_type-case :
    (table : List (Bytes × Bytes)) (s t : Bytes)
    → strcasecmp_eq s t ≡ true
    → find_mime_type table s ≡ find_mime_type table t
unfolding find_mime_type
find_mime_type-case [] s t h = refl
find_mime_type-case ((extension, mime_type) ∷ rest) s t h =
    rw (same_test s t extension h, find_mime_type-case rest s t h) refl

-- The type of a file depends on its extension alone, the text behind its last dot, whatever the case
-- of the letters.
get_mime_type-extension :
    (base base' extension extension' : Bytes)
    → has_byte b'.' extension ≡ false
    → has_byte b'.' extension' ≡ false
    → strcasecmp_eq extension extension' ≡ true
    → get_mime_type (base ++ b'.' ∷ extension) ≡ get_mime_type (base' ++ b'.' ∷ extension')
unfolding get_mime_type strcasecmp_eq
get_mime_type-extension base base' extension extension' h k e =
    rw (get_mime_type, last_dot-extension base extension h, last_dot-extension base' extension' k)
      (find_mime_type-case mime_types (b'.' ∷ extension) (b'.' ∷ extension') (ground (arith, e)))
