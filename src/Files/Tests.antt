-- ===== src/Files/Tests.antt =====
-- Runs and instances of the theorem on static files.
use x_server.Prelude.{◌≡◌, refl, true, false, some, none, [], ◌⊎◌}
use x_server.Text.{Bytes, codes, strcmp_eq, strcasecmp_eq, tolower, starts_with}
use x_server.Http.Method.{get}
use x_server.Http.Request.{Request}
use x_server.Routes.{Route, static_route, auth_none}
use x_server.Files.{
  FileSystem, http_error, file_content, has_dots, has_byte, is_path_safe, relative_path,
  path_buffer, file_path, send_path, check_scope, handle_local_file,
}
use x_server.Files.Mime.{mime_types, last_dot, find_mime_type, get_mime_type}
use x_server.Files.Contained.{Serves, Refuses, IsContained, handle_local_file-IsContained}

abbrev public : Route
public = record {
  route_type = static_route;
  path_prefix = codes "/";
  target_host = [];
  target_port = 0;
  local_path = codes "/srv";
  charset = codes "utf-8";
  auth_type = auth_none;
}

-- Every name is resolved to itself and is a file.
abbrev plain_files : FileSystem
plain_files = record {
  realpath = λ s. some s;
  is_directory = λ s. some false;
  accessible = λ s. true;
}

abbrev asks : Bytes → Request
asks path = record {
  method = get;
  path = path;
  query_string = none;
  version = codes "HTTP/1.1";
  headers = [];
  body = none;
}

serves_logo :
    handle_local_file plain_files public (asks (codes "/a.png")) ≡ file_content (codes "/srv/a.png")
unfolding handle_local_file relative_path is_path_safe has_dots has_byte check_scope send_path
    file_path path_buffer starts_with strcmp_eq
serves_logo = refl

refuses_dots : handle_local_file plain_files public (asks (codes "/u/..")) ≡ http_error 403
unfolding handle_local_file relative_path is_path_safe has_dots has_byte strcmp_eq
refuses_dots = refl

handle_local_file-IsContained_example :
    let reply = handle_local_file plain_files public (asks (codes "/a.png")) in
    let file = file_path public (relative_path public (codes "/a.png")) in
    Refuses reply ⊎ (Serves file reply × IsContained plain_files public (asks (codes "/a.png")))
handle_local_file-IsContained_example =
    handle_local_file-IsContained plain_files public (asks (codes "/a.png"))

mime_of_map : get_mime_type (codes "/srv/app.js.MAP") ≡ codes "application/json"
unfolding get_mime_type last_dot find_mime_type mime_types strcasecmp_eq tolower
mime_of_map = refl
