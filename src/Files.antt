-- ===== src/Files.antt =====
-- src/file_handler.c: is_path_safe and the decisions of handle_local_file. The file system is an
-- argument: realpath, whether stat finds a directory, and whether access finds a file.
pub mod Contained
pub mod Mime
mod Tests
use x_server.Prelude.{
  ℕ, Bool, true, false, not, ◌&&◌, ◌||◌, Option, none, some, List, [], ◌∷◌, ◌++◌, ◌==◌,
  if◌then◌else◌, length, take, drop,
}
use x_server.Text.{Bytes, codes, strcmp_eq, starts_with, contains}
use x_server.Http.Method.{Method, get, head}
use x_server.Http.Request.{Request}
use x_server.Routes.{Route}

-- What the client gets: an error page with a status, a file, or the listing of a directory.
pub data Reply : Type 0 where
  http_error : ℕ → Reply
  file_content : Bytes → Reply
  directory_listing : Bytes → Reply

pub record FileSystem : Type 0 where
  pub realpath : Bytes → Option Bytes
  pub is_directory : Bytes → Option Bool
  pub accessible : Bytes → Bool

-- The loop over pairs of dots.
unfoldable pub has_dots : Bytes → Bool
has_dots [] = false
has_dots (c ∷ []) = false
has_dots (c ∷ d ∷ s) = (c == b'.' && d == b'.') || has_dots (d ∷ s)

unfoldable pub has_byte : ℕ → Bytes → Bool
has_byte c [] = false
has_byte c (d ∷ s) = d == c || has_byte c s

unfoldable pub is_path_safe : Bytes → Bool
is_path_safe path =
    if has_dots path
    then false
    else if has_byte b'\\' path || has_byte b':' path
    then false
    else true

abbrev pub skip_slash : Bytes → Bytes
skip_slash [] = []
skip_slash (c ∷ s) = if c == b'/' then s else c ∷ s

abbrev pub or_dot : Bytes → Bytes
or_dot [] = codes "."
or_dot (c ∷ s) = c ∷ s

-- The path behind the prefix of the route, which find_route has found to be a prefix of it.
unfoldable pub relative_path : Route → Bytes → Bytes
relative_path route path = or_dot (
    skip_slash (
      if strcmp_eq route.path_prefix (codes "/")
      then path
      else drop (length route.path_prefix) path))

-- snprintf into MAX_PATH_LENGTH bytes.
unfoldable pub path_buffer : Bytes → Bytes
path_buffer s = take 1023 s

unfoldable pub file_path : Route → Bytes → Bytes
file_path route relative = path_buffer (route.local_path ++ (b'/' ∷ relative))

unfoldable pub index_path : Bytes → Bytes
index_path file = path_buffer (file ++ codes "/index.html")

abbrev pub is_get_or_head : Method → Bool
is_get_or_head get = true
is_get_or_head head = true
is_get_or_head _ = false

module _ (fs : FileSystem) where
  -- A file that is in scope.
  unfoldable pub send_path : Bytes → Reply
  send_path file = elim (fs.is_directory file) [
    | none ↦ http_error 404
    | some directory ↦
        if directory
        then (if fs.accessible (index_path file)
            then file_content (index_path file)
            else directory_listing file)
        else file_content file
  ]

  -- The checks of the resolved paths.
  unfoldable pub check_scope : Route → Bytes → Reply
  check_scope route file = elim (fs.realpath file) [
    | none ↦ http_error 404
    | some real_file_path ↦ elim (fs.realpath route.local_path) [
      | none ↦ http_error 404
      | some real_local_path ↦
          if starts_with real_file_path real_local_path then send_path file else http_error 403
    ]
  ]

  unfoldable pub handle_local_file : Route → Request → Reply
  handle_local_file route request =
      let relative = relative_path route request.path in
      if length route.local_path == 0
      then http_error 500
      else if not (is_get_or_head request.method)
      then http_error 405
      else if not (is_path_safe relative)
      then http_error 403
      else check_scope route (file_path route relative)
