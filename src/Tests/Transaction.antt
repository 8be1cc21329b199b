-- ===== src/Tests/Transaction.antt =====
-- The results on endpoints and on the end of a transaction, at concrete inputs.
use kitserv.Prelude.{refl, true, false, some, List, [], ◌∷◌, ◌++◌, codes}
use kitserv.Client.{Client, Method, TransactionState, cleared}
use kitserv.Buffer.{Alloc}
use kitserv.ApiTree.{ApiEntry, ApiTree, Subtrees, parse_api_tree, parse_subtrees}
use kitserv.ApiTree.Dispatch.{Dispatches, parse_api_tree_node}
use kitserv.Tests.Data.{new_client}

abbrev login : ApiEntry
login = record {
  prefix = codes "login";
  prefix_length = 5;
  method = 8;
  handler = 1;
  finishes_path = true;
}

abbrev users : ApiEntry
users = record {
  prefix = codes "users";
  prefix_length = 5;
  method = 1;
  handler = 2;
  finishes_path = false;
}

abbrev api_client : Client
api_client = record new_client {
  req_headers = codes "/users/7" ++ 0 ∷ [];
  ta = record cleared { req_method = Method.get };
}

abbrev entries : List ApiEntry
entries = login ∷ users ∷ []

parse_api_tree_node_example :
    Dispatches api_client
      (codes "users/7")
      entries
      (λ d. parse_subtrees [] [] d 1 Subtrees.no_subtrees)
      (parse_api_tree [] api_client 1 (ApiTree.node entries Subtrees.no_subtrees))
parse_api_tree_node_example =
    parse_api_tree_node [] api_client 1 entries Subtrees.no_subtrees (refl, (refl, tt))

-- A request without payload, with six bytes of the next one behind it.
abbrev pipelined : Client
pipelined = record new_client {
  req_headers = codes "GET / HTTP/1.1....GET /b";
  ta = record cleared {
    state = TransactionState.serve;
    req_payload = some 18;
    req_payload_len = 6;
  };
}

abbrev fixed : Alloc
fixed n = false
