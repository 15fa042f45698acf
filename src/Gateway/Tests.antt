-- ===== src/Gateway/Tests.antt =====
-- Runs and instances of the theorem on whole requests.
use x_server.Prelude.{◌≡◌, ◌⊎◌, refl, true, false, none, some, [], ◌∷◌}
use x_server.Text.{
  Bytes, codes, c_string, contains, starts_with, strcmp_eq, isalpha, isdigit, split_at,
}
use x_server.Text.Scan.{strtok}
use x_server.Http.Method.{get, parse_method}
use x_server.Http.Line.{read_line_from_buffer}
use x_server.Http.Path.{normalize_path, normalize_decoded, decode, has_control, has_drive, squeeze}
use x_server.Http.Header.{all_bytes, get_header_value}
use x_server.Http.Request.{
  Request, done, parse_http_request_from_buffer, split_request_line, parse_with_line,
  check_request_line, is_version_format, is_uri_byte, parse_section, parse_body, finish_body,
  read_headers,
}
use x_server.Routes.{Route, static_route, auth_none, better, find_loop, find_route}
use x_server.Files.{
  FileSystem, http_error, file_content, has_dots, has_byte, is_path_safe, relative_path,
  path_buffer, file_path, send_path, check_scope, handle_local_file,
}
use x_server.Gateway.{
  error_page, static_reply, answered, validate_request, dispatch, answer_on_route, handle_parsed,
  handle_request,
}
use x_server.Gateway.Served.{AreErrors, IsServed, handle_request-IsServed}

abbrev hash : Bytes → Bytes
hash s = s

-- Every name is resolved to itself and is a file.
abbrev plain_files : FileSystem
plain_files = record {
  realpath = λ s. some s;
  is_directory = λ s. some false;
  accessible = λ s. true;
}

abbrev public_files : Route
public_files = record {
  route_type = static_route;
  path_prefix = codes "/";
  target_host = [];
  target_port = 0;
  local_path = codes "/srv";
  charset = codes "utf-8";
  auth_type = auth_none;
}

abbrev logo_request : Request
logo_request = record {
  method = get;
  path = codes "/a.png";
  query_string = none;
  version = codes "HTTP/1.1";
  headers = [];
  body = none;
}

logo_parsed : parse_http_request_from_buffer (codes "GET /a.png HTTP/1.1") ≡ done logo_request
unfolding normalize_path normalize_decoded decode c_string contains starts_with has_control
    has_drive squeeze parse_http_request_from_buffer split_request_line parse_with_line
    check_request_line is_version_format is_uri_byte parse_section parse_body finish_body
    read_headers read_line_from_buffer parse_method get_header_value all_bytes strtok strcmp_eq
    isalpha isdigit split_at
logo_parsed = refl

logo_answered :
    (handle_parsed plain_files hash (public_files ∷ []) none none 0 logo_request).1
    ≡ answered (static_reply (file_content (codes "/srv/a.png")) ∷ [])
unfolding handle_parsed answer_on_route validate_request dispatch find_route find_loop better
    handle_local_file relative_path is_path_safe has_dots has_byte check_scope send_path file_path
    path_buffer starts_with strcmp_eq
logo_answered = refl

-- A static request that is refused gets two error pages.
refused_twice :
    (handle_parsed plain_files hash
      (public_files ∷ [])
      none
      none
      0
      (record logo_request { path = codes "/u/.." })).1
    ≡ answered (static_reply (http_error 403) ∷ error_page 403 ∷ [])
unfolding handle_parsed answer_on_route validate_request dispatch find_route find_loop better
    handle_local_file relative_path is_path_safe has_dots has_byte starts_with strcmp_eq
refused_twice = refl

logo_handled :
    (handle_request plain_files hash
      (public_files ∷ [])
      none
      none
      0
      (codes "GET /a.png HTTP/1.1")).1
    ≡ answered (static_reply (file_content (codes "/srv/a.png")) ∷ [])
unfolding handle_request
logo_handled = rw (handle_request, logo_parsed) logo_answered

handle_request-IsServed_example :
    AreErrors (static_reply (file_content (codes "/srv/a.png")) ∷ [])
    ⊎ IsServed plain_files hash
        (public_files ∷ [])
        none
        0
        (codes "GET /a.png HTTP/1.1")
        (static_reply (file_content (codes "/srv/a.png")) ∷ [])
handle_request-IsServed_example =
    handle_request-IsServed plain_files hash (public_files ∷ []) none none 0
      (codes "GET /a.png HTTP/1.1") logo_handled
