-- ===== src/Providers/Responses.antt =====
-- src/providers: what every kind of upstream puts into its answers.
use ait.Base.{◌≡◌, refl, ap, ◌∙◌, inl, inr, false, none, some, Text, codes, text_eq, arith}
use ait.Json.{Fields, object, string, field, end, get, get_field}
use ait.Providers.{
  Upstream, ollama_provider, llamacpp_provider, openai_compat_provider, insert_field, remove_field,
  move_reasoning, rename_reasoning_key, rename_fields, rewritten,
}
use ait.Providers.Lookups.{get_field-insert_field, get_field-remove_field, move_reasoning-cases}

get_field-rename_fields :
    (fs : Fields) (k : Text)
    → get_field (rename_fields fs) k
      ≡ (elim (get_field fs k) [ none ↦ none | some v ↦ some (rename_reasoning_key v) ])
unfolding get_field rename_fields
get_field-rename_fields end k = refl
get_field-rename_fields (field j v fs) k = ground (arith, get_field-rename_fields fs k)

get_field-move_reasoning :
    (fs : Fields) (k : Text)
    → text_eq (codes "reasoning_content") k ≡ false
    → text_eq (codes "reasoning") k ≡ false
    → get_field (move_reasoning fs) k ≡ get_field fs k
get_field-move_reasoning fs k other also = elim (move_reasoning-cases fs) [
  | inl (absent, e) ↦ ap (λ x. get_field x k) e
  | inr (v, there, e) ↦
      ap (λ x. get_field x k) e
      ∙ ground (
        arith,
        get_field-insert_field (remove_field (codes "reasoning") fs) (codes "reasoning_content") k
            v,
        get_field-remove_field fs (codes "reasoning") k,
      )
]

abbrev shadowed : Fields → Text → Fields
shadowed fs model_name =
    insert_field (codes "system_fingerprint") (string (codes "ait-proxy"))
      (insert_field (codes "model") (string model_name) fs)

model-shadowed :
    (fs : Fields) (model_name : Text)
    → get_field (shadowed fs model_name) (codes "model") ≡ some (string model_name)
unfolding text_eq
model-shadowed fs model_name = ground (
  arith,
  get_field-insert_field (insert_field (codes "model") (string model_name) fs)
      (codes "system_fingerprint") (codes "model") (string (codes "ait-proxy")),
  get_field-insert_field fs (codes "model") (codes "model") (string model_name),
)

fingerprint-shadowed :
    (fs : Fields) (model_name : Text)
    → get_field (shadowed fs model_name) (codes "system_fingerprint")
      ≡ some (string (codes "ait-proxy"))
unfolding text_eq
fingerprint-shadowed fs model_name =
    get_field-insert_field (insert_field (codes "model") (string model_name) fs)
      (codes "system_fingerprint") (codes "system_fingerprint") (string (codes "ait-proxy"))

get_field-remove_timings :
    (fs : Fields) (k : Text)
    → text_eq (codes "timings") k ≡ false
    → get_field (remove_field (codes "timings") fs) k ≡ get_field fs k
get_field-remove_timings fs k other = ground (arith, get_field-remove_field fs (codes "timings") k)

-- A string field survives the renaming under any other key.
string-renamed :
    (fs : Fields) (k s : Text)
    → text_eq (codes "reasoning_content") k ≡ false
    → text_eq (codes "reasoning") k ≡ false
    → get_field fs k ≡ some (string s)
    → get_field (move_reasoning (rename_fields fs)) k ≡ some (string s)
unfolding rename_reasoning_key
string-renamed fs k s other also there =
    get_field-move_reasoning (rename_fields fs) k other also
    ∙ get_field-rename_fields fs k
    ∙ rw there refl

-- Whatever object an upstream of any kind answers with, the client reads the model's name that it
-- asked for under `model`, and the proxy's own name under `system_fingerprint`.
pub rewritten-get :
    (upstream : Upstream) (fs : Fields) (model_name : Text)
    → (get (rewritten upstream (object fs) model_name) (codes "model") ≡ some (string model_name))
      × (get (rewritten upstream (object fs) model_name) (codes "system_fingerprint")
          ≡ some (string (codes "ait-proxy")))
unfolding rewritten get text_eq
rewritten-get (ollama_provider c) fs model_name = (
  string-renamed (shadowed fs model_name) (codes "model") model_name refl refl
      (model-shadowed fs model_name),
  string-renamed (shadowed fs model_name) (codes "system_fingerprint") (codes "ait-proxy") refl refl
      (fingerprint-shadowed fs model_name),
)
rewritten-get (llamacpp_provider c) fs model_name = (
  get_field-remove_timings (shadowed fs model_name) (codes "model") refl
      ∙ model-shadowed fs model_name,
  get_field-remove_timings (shadowed fs model_name) (codes "system_fingerprint") refl
      ∙ fingerprint-shadowed fs model_name,
)
rewritten-get (openai_compat_provider c) fs model_name =
    (model-shadowed fs model_name, fingerprint-shadowed fs model_name)
