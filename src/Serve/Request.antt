-- ===== src/Serve/Request.antt =====
-- What `kitserv_http_serve_request` of src/http.c keeps of the client and the socket.
use kitserv.Prelude.{ℕ, ◌≡◌, refl, ◌&&◌, ◌==◌, Option, none, some, if_both}
use kitserv.Client.{Client, Rc, TransactionState}
use kitserv.Recv.{Socket}
use kitserv.Send.{set_state}
use kitserv.ApiTree.{ApiTree, prefixes_of}
use kitserv.ApiTree.Owner.{TreeOwns, parse_api_tree-TreeOwns}
use kitserv.Static.{Errno, is_unset, path_of}
use kitserv.Static.Owner.{handle_static_path-Owns}
use kitserv.Serve.{
  Server, Request, cont, serve_static, handled, call_endpoint, parsed_tree, subtrees_of, path_start,
  is_null, try_tree, with_tree, serve_request,
}
use kitserv.Client.Kept.{kept}

abbrev pub RequestOwns : (Client → Socket → Type 0) → Request → Type 0
RequestOwns R none = Unit
RequestOwns R (some (c, sk)) = R c sk

pub RequestOwns-mono :
    (P Q : Client → Socket → Type 0) (r : Request)
    → ((c : Client) (sk : Socket) → P c sk → Q c sk)
    → RequestOwns P r
    → RequestOwns Q r
RequestOwns-mono P Q none f h = tt
RequestOwns-mono P Q (some (c, sk)) f h = f c sk h

-- A property of the client and the socket that the code keeps, since it looks only at what that leaves
-- alone, and that the handlers keep.
module _ (server : Server) (R : Client → Socket → Type 0)
    (same : (c d : Client) (sk : Socket) → kept d ≡ kept c → R c sk → R d sk)
    (handles : (h : ℕ) (c : Client) (state : Option ℕ) (sk : Socket)
      → R c sk
      → RequestOwns R (server.handler h c state sk)) where
  serve_static-Owns :
      (errno : Errno) (c : Client) (sk : Socket)
      → R c sk
      → RequestOwns R (serve_static server errno c sk)
  unfolding serve_static cont
  serve_static-Owns errno c sk e =
      same c _ sk
        (handle_static_path-Owns (kept c) server.host server.context c errno
          (path_of c c.ta.req_path) refl)
        e

  handled-Owns : (r : Request) → RequestOwns R r → RequestOwns R (handled r)
  unfolding cont
  handled-Owns none e = tt
  handled-Owns (some (c, sk)) e =
      if_both (RequestOwns R) (is_unset c.ta.resp_status) (λ _. e)
        (λ _. same c (set_state c TransactionState.prepare_response) sk refl e)

  call_endpoint-Owns :
      (errno : Errno) (c : Client) (sk : Socket) (o : Option ℕ)
      → R c sk
      → RequestOwns R (call_endpoint server errno c sk o)
  call_endpoint-Owns errno c sk none e = serve_static-Owns errno c sk e
  call_endpoint-Owns errno c sk (some h) e =
      handled-Owns (server.handler h c c.ta.api_internal_data sk)
        (handles h c c.ta.api_internal_data sk e)

  parsed_tree-Owns :
      (errno : Errno) (c : Client) (sk : Socket) (o : Option (Client × Rc))
      → R c sk
      → TreeOwns (kept c) o
      → RequestOwns R (parsed_tree server errno sk o)
  unfolding cont
  parsed_tree-Owns errno c sk none e k = tt
  parsed_tree-Owns errno c sk (some (d, Rc.ok)) e k =
      call_endpoint-Owns errno d sk d.ta.api_endpoint_hit (same c d sk k e)
  parsed_tree-Owns errno c sk (some (d, Rc.fail)) e k =
      same c (set_state d TransactionState.prepare_response) sk k e

  try_tree-Owns :
      (errno : Errno) (c : Client) (sk : Socket) (t : ApiTree) (o : Option ℕ)
      → R c sk
      → RequestOwns R (try_tree server errno c sk t o)
  try_tree-Owns errno c sk t (some h) e = call_endpoint-Owns errno c sk (some h) e
  try_tree-Owns errno c sk t none e =
      if_both (RequestOwns R) (is_null c.ta.api_internal_data && c.ta.api_allow_flags == 0)
        (λ _. parsed_tree-Owns errno c sk _ e (
          parse_api_tree-TreeOwns (kept c) (prefixes_of (subtrees_of t)) c
            (path_start c c.ta.req_path) t refl))
        (λ _. tt)

  with_tree-Owns :
      (errno : Errno) (c : Client) (sk : Socket) (o : Option ApiTree)
      → R c sk
      → RequestOwns R (with_tree server errno c sk o)
  with_tree-Owns errno c sk none e = serve_static-Owns errno c sk e
  with_tree-Owns errno c sk (some t) e = try_tree-Owns errno c sk t c.ta.api_endpoint_hit e

  pub serve_request-Owns :
      (errno : Errno) (c : Client) (sk : Socket)
      → R c sk
      → RequestOwns R (serve_request server errno c sk)
  unfolding serve_request
  serve_request-Owns errno c sk e = with_tree-Owns errno c sk server.api_tree e
