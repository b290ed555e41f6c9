-- ===== src/Providers/Tests.antt =====
-- src/providers: runs on small bodies.
use ait.Base.{◌≡◌, true, some, Text, codes}
use ait.Base.Int.{pos}
use ait.Db.{ollama}
use ait.Json.{Fields, string, array, object, nil, cons, end, field, get, get_field}
use ait.Providers.{Upstream, create_provider, rewritten, request_body, rename_reasoning_key}
use ait.Providers.Rename.{IsRenamed, rename_reasoning_key-IsRenamed}
use ait.Providers.Responses.{rewritten-get}
use ait.Providers.Requests.{requested, request_body-get}

abbrev thought : Fields
thought = field (codes "reasoning") (string (codes "hm")) end

abbrev answered : Fields
answered =
    field (codes "model") (string (codes "u"))
      (field (codes "choices") (array (cons (object thought) nil)) thought)

rename_reasoning_key-IsRenamed_example : IsRenamed (rename_reasoning_key (object answered))
rename_reasoning_key-IsRenamed_example = rename_reasoning_key-IsRenamed (object answered)

abbrev upstream : Upstream
upstream = create_provider record {
  id = codes "p";
  name = codes "local";
  provider_type = ollama;
  base_url = codes "http://a.example/";
  api_key = some (codes "k");
  enabled = true;
  created_at = pos 0;
  updated_at = pos 0;
}

rewritten-get_example :
    (get (rewritten upstream (object answered) (codes "m")) (codes "model")
      ≡ some (string (codes "m")))
    × (get (rewritten upstream (object answered) (codes "m")) (codes "system_fingerprint")
        ≡ some (string (codes "ait-proxy")))
rewritten-get_example = rewritten-get upstream answered (codes "m")

request_body-get_example :
    (sent : Fields) × (request_body (object answered) true (codes "u") (codes "/chat/completions")
      ≡ some (object sent))
    × ((k : Text)
        → get_field sent k ≡ requested answered true (codes "u") (codes "/chat/completions") k)
request_body-get_example = request_body-get answered true (codes "u") (codes "/chat/completions")
