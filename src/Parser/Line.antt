-- ===== src/Parser/Line.antt =====
-- The request line as a client writes it, in the switch of `kitserv_http_recv_request` of src/http.c.
use kitserv.Prelude.{
  ℕ, drop-length, ◌+◌, ◌≡◌, refl, sym, ap, ◌∙◌, false, Option, none, some, [], ◌∷◌, ◌++◌, arith,
  length, drop, length-append, append_assoc, subst,
}
use kitserv.Cstring.{Bytes, cstr}
use kitserv.Client.{Client, Method, HttpVersion, ParseState}
use kitserv.Traversal.{attempted_path_traversal}
use kitserv.Cstring.Laws.{HasNul}
use kitserv.UrlDecode.{decoded}
use kitserv.UrlDecode.Place.{leftover, cstr-append_nul, HasNul-append}
use kitserv.Parser.Headers.{At}
use kitserv.Parser.{parse, req_path, req_version, req_head}
use kitserv.Parser.RequestLine.{
  method_text, IsNamed, holding, with_method, req_method-line, with_version, ending,
  req_version_line,
}
use kitserv.Parser.Target.{
  target, IsTarget, parsed, length-parsed, parsed-split, with_target, req_path_line,
}

-- The request line, with what is behind it.
abbrev pub request_text : Method → Bytes → Option Bytes → HttpVersion → Bytes → Bytes
request_text m t o v rest = method_text m ++ b' ' ∷ (target t o ++ b' ' ∷ ending v rest)

-- The method and its space.
abbrev pub before_target : Method → Bytes
before_target m = method_text m ++ b' ' ∷ []

-- The client behind the request line.
abbrev pub behind_line : Client → Method → Bytes → Option Bytes → HttpVersion → Bytes → Client
behind_line c m t o v rest =
    with_version (with_target (with_method c m) (before_target m) t o (ending v rest)) v

abbrev pub line_end : Method → Bytes → Option Bytes → ℕ
line_end m t o = length (parsed (before_target m) t o) + 10

version_line :
    (c : Client) (pre t : Bytes) (o : Option Bytes) (v : HttpVersion) (rest : Bytes)
    → req_version
        (with_target c pre t o (ending v rest))
        (length (parsed pre t o))
        (length (parsed pre t o))
      ≡ req_head
          (with_version (with_target c pre t o (ending v rest)) v)
          (length (parsed pre t o) + 10)
          (length (parsed pre t o) + 10)
version_line c pre t none v rest =
    req_version_line (with_target c pre t none (ending v rest)) (parsed pre t none) v rest
version_line c pre t (some q) v rest =
    req_version_line (with_target c pre t (some q) (ending v rest)) (parsed pre t (some q)) v rest

pub parse-request_line :
    (c : Client) (m : Method) (t : Bytes) (o : Option Bytes) (v : HttpVersion) (rest : Bytes)
    → IsNamed m
    → IsTarget t o
    → attempted_path_traversal (cstr (decoded t)) ≡ false
    → parse ParseState.ps_new (holding c (request_text m t o v rest)) 0 0
      ≡ req_head (behind_line c m t o v rest) (line_end m t o) (line_end m t o)
unfolding parse
parse-request_line c m t o v rest n w safe =
    let pre = before_target m in
    let tail = ending v rest in
    let d = with_method c m in
    let whole = sym (append_assoc (method_text m) (b' ' ∷ []) (target t o ++ b' ' ∷ tail)) in
    let size = sym (length-append (method_text m) (b' ' ∷ [])) in
    req_method-line c m (target t o ++ b' ' ∷ tail) n
    ∙ ap (λ b. req_path (holding d b) (length (method_text m) + 1) (length (method_text m) + 1))
        whole
    ∙ ap (λ k. req_path (holding d (pre ++ (target t o ++ b' ' ∷ tail))) k k) size
    ∙ req_path_line d pre t o tail w safe
    ∙ ap (λ k. req_version (with_target d pre t o tail) k k) (sym (length-parsed pre t o))
    ∙ version_line d pre t o v rest

abbrev pub decoded_query : Option Bytes → Option Bytes
decoded_query none = none
decoded_query (some q) = some (cstr (decoded q))

At-behind :
    (pre s more tail : Bytes)
    → At ((pre ++ (s ++ 0 ∷ more)) ++ tail) (some (length pre)) (some (cstr s))
At-behind pre s more tail =
    let at : drop (length pre) ((pre ++ (s ++ 0 ∷ more)) ++ tail) ≡ s ++ 0 ∷ (more ++ tail) =
      ap (λ b. drop (length pre) b) (append_assoc pre (s ++ 0 ∷ more) tail)
      ∙ drop-length pre ((s ++ 0 ∷ more) ++ tail)
      ∙ append_assoc s (0 ∷ more) tail in
    (
      omega (arith, length-append (pre ++ (s ++ 0 ∷ more)) tail, length-append pre (s ++ 0 ∷ more)),
      subst HasNul (sym at) (HasNul-append s (more ++ tail)),
      ap cstr at ∙ cstr-append_nul s (more ++ tail),
    )

-- The request line, when it is parsed.
abbrev pub done_line : Method → Bytes → Option Bytes → HttpVersion → Bytes
done_line m t o v = parsed (before_target m) t o ++ ending v []

pub length-done_line :
    (m : Method) (t : Bytes) (o : Option Bytes) (v : HttpVersion)
    → length (done_line m t o v) ≡ line_end m t o
length-done_line m t o HttpVersion.http_1_0 =
    length-append (parsed (before_target m) t o) (ending HttpVersion.http_1_0 [])
length-done_line m t o HttpVersion.http_1_1 =
    length-append (parsed (before_target m) t o) (ending HttpVersion.http_1_1 [])

ending-append :
    (pre : Bytes) (v : HttpVersion) (rest : Bytes)
    → pre ++ ending v rest ≡ (pre ++ ending v []) ++ rest
ending-append pre HttpVersion.http_1_0 rest =
    sym (append_assoc pre (ending HttpVersion.http_1_0 []) rest)
ending-append pre HttpVersion.http_1_1 rest =
    sym (append_assoc pre (ending HttpVersion.http_1_1 []) rest)

pub behind_line-split :
    (c : Client) (m : Method) (t : Bytes) (o : Option Bytes) (v : HttpVersion) (rest : Bytes)
    → (behind_line c m t o v rest).req_headers ≡ done_line m t o v ++ rest
behind_line-split c m t none v rest = ending-append (parsed (before_target m) t none) v rest
behind_line-split c m t (some q) v rest = ending-append (parsed (before_target m) t (some q)) v rest

pub path_At :
    (c : Client) (m : Method) (t : Bytes) (o : Option Bytes) (v : HttpVersion) (rest : Bytes)
    → At (done_line m t o v) (behind_line c m t o v rest).ta.req_path (some (cstr (decoded t)))
path_At c m t none v rest = At-behind (before_target m) (decoded t) (leftover t) (ending v [])
path_At c m t (some q) v rest =
    At-behind (before_target m) (decoded t) (leftover t ++ (decoded q ++ 0 ∷ leftover q))
      (ending v [])

pub query_At :
    (c : Client) (m : Method) (t : Bytes) (o : Option Bytes) (v : HttpVersion) (rest : Bytes)
    → c.ta.req_query ≡ none
    → At (done_line m t o v) (behind_line c m t o v rest).ta.req_query (decoded_query o)
query_At c m t none v rest e = rw e tt
query_At c m t (some q) v rest e =
    let pre = before_target m in
    let behind = At-behind (parsed pre t none) (decoded q) (leftover q) (ending v []) in
    subst (λ n. At (done_line m t (some q) v) (some n) (some (cstr (decoded q))))
      (length-parsed pre t none)
      (subst
        (λ b. At (b ++ ending v []) (some (length (parsed pre t none))) (some (cstr (decoded q))))
        (sym (parsed-split pre t q)) behind)

pub behind_line-line_of :
    (c : Client) (m : Method) (t : Bytes) (o : Option Bytes) (v : HttpVersion) (rest : Bytes)
    → ((behind_line c m t o v rest).ta.req_method ≡ m)
      × ((behind_line c m t o v rest).ta.req_version ≡ v)
behind_line-line_of c m t none v rest = (refl, refl)
behind_line-line_of c m t (some q) v rest = (refl, refl)
