-- ===== src/Files/Contained.antt =====
-- What a static route serves.
use x_server.Prelude.{
  ◌≡◌, ◌≢◌, refl, sym, ◌∙◌, inl, inr, ◌⊎◌, true, false, Bool-cases, Option-cases, some, [], ◌∷◌,
  ◌==◌, arith, length,
}
use x_server.Text.{Bytes, codes, starts_with, contains}
use x_server.Http.Request.{Request}
use x_server.Routes.{Route}
use x_server.Files.{
  Reply, http_error, file_content, directory_listing, FileSystem, has_dots, is_path_safe,
  relative_path, file_path, index_path, is_get_or_head, send_path, check_scope, handle_local_file,
}

-- The reply sends something of the file system for this file name: the file, its index or a listing.
pub data Serves (file : Bytes) : Reply → Type 0 where
  whole : Serves file (file_content file)
  index : Serves file (file_content (index_path file))
  listing : Serves file (directory_listing file)

-- The reply refuses with one of the codes of the function.
pub data Refuses : Reply → Type 0 where
  no_root : Refuses (http_error 500)
  no_method : Refuses (http_error 405)
  denied : Refuses (http_error 403)
  missing : Refuses (http_error 404)

-- The two tests agree: no `..` anywhere.
pub has_dots-contains : (s : Bytes) → has_dots s ≡ contains s (codes "..")
unfolding has_dots contains starts_with
has_dots-contains [] = refl
has_dots-contains (c ∷ []) = ground arith
has_dots-contains (c ∷ d ∷ s) = ground (arith, has_dots-contains (d ∷ s))

safe-has_dots : (s : Bytes) → is_path_safe s ≡ true → has_dots s ≡ false
unfolding is_path_safe
safe-has_dots s h = ground (arith, h)

module _ (fs : FileSystem) where
  -- The conditions under which a static route sends anything.
  pub record IsContained (route : Route) (request : Request) : Type 0 where
    pub root : length route.local_path ≢ 0
    pub reading : is_get_or_head request.method ≡ true
    pub no_climb : contains (relative_path route request.path) (codes "..") ≡ false
    pub real_file : Bytes
    pub real_root : Bytes
    pub resolved : fs.realpath (file_path route (relative_path route request.path)) ≡ some real_file
    pub resolved_root : fs.realpath route.local_path ≡ some real_root
    pub inside : starts_with real_file real_root ≡ true

  send_path-Serves : (file : Bytes) → Serves file (send_path fs file) ⊎ Refuses (send_path fs file)
  unfolding send_path
  send_path-Serves file = elim (Option-cases (fs.is_directory file)) [
    | inl n ↦ rw (n, send_path) (inr missing)
    | inr (true, n) ↦ elim (Bool-cases (fs.accessible (index_path file))) [
      | inl i ↦ rw (n, i, send_path) (inl index)
      | inr i ↦ rw (n, i, send_path) (inl listing)
    ]
    | inr (false, n) ↦ rw (n, send_path) (inl whole)
  ]

  check_scope-Serves :
      (route : Route) (file : Bytes)
      → Refuses (check_scope fs route file)
        ⊎ (Serves file (check_scope fs route file)
            × (real_file : Bytes) × (real_root : Bytes) × (fs.realpath file ≡ some real_file)
            × (fs.realpath route.local_path ≡ some real_root)
            × (starts_with real_file real_root ≡ true))
  unfolding check_scope
  check_scope-Serves route file = elim (Option-cases (fs.realpath file)) [
    | inl n ↦ rw (n, check_scope) (inl missing)
    | inr (real_file, n) ↦ elim (Option-cases (fs.realpath route.local_path)) [
      | inl m ↦ rw (n, m, check_scope) (inl missing)
      | inr (real_root, m) ↦ elim (Bool-cases (starts_with real_file real_root)) [
        | inr b ↦ rw (n, m, b, check_scope) (inl denied)
        | inl b ↦
            let same : check_scope fs route file ≡ send_path fs file = ground (arith, n, m, b) in
            rw same (elim (send_path-Serves file) [
              | inl y ↦ inr (y, real_file, real_root, n, m, b)
              | inr r ↦ inl r
            ])
      ]
    ]
  ]

  -- A static route answers a request with 500, 405, 403 or 404, or it sends the file that the path
  -- names, its index or a listing. It sends only for GET and HEAD, only where the path behind the
  -- prefix holds no `..`, and only where the resolved file name begins with the resolved root.
  pub handle_local_file-IsContained :
      (route : Route) (request : Request)
      → let reply = handle_local_file fs route request in
        let file = file_path route (relative_path route request.path) in
        Refuses reply ⊎ (Serves file reply × IsContained route request)
  unfolding handle_local_file
  handle_local_file-IsContained route request =
      let relative = relative_path route request.path in
      elim (Bool-cases (length route.local_path == 0)) [
        | inl z ↦ rw (z, handle_local_file) (inl no_root)
        | inr z ↦ elim (Bool-cases (is_get_or_head request.method)) [
          | inr m ↦ rw (z, m, handle_local_file) (inl no_method)
          | inl m ↦ elim (Bool-cases (is_path_safe relative)) [
            | inr p ↦ rw (z, m, p, handle_local_file) (inl denied)
            | inl p ↦
                let same : handle_local_file fs route request
                    ≡ check_scope fs route (file_path route relative) =
                  ground (arith, z, m, p) in
                rw same (elim (check_scope-Serves route (file_path route relative)) [
                  | inl r ↦ inl r
                  | inr (y, real_file, real_root, n, k, b) ↦ inr (
                    y,
                    record {
                      root = grind (arith, z);
                      reading = m;
                      no_climb = sym (has_dots-contains relative) ∙ safe-has_dots relative p;
                      real_file = real_file;
                      real_root = real_root;
                      resolved = n;
                      resolved_root = k;
                      inside = b;
                    },
                  )
                ])
          ]
        ]
      ]
