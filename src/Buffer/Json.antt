-- ===== src/Buffer/Json.antt =====
-- `TecBuffer_json`. `sprintf` is outside the library: `fields` is what it prints of a buffer by
-- `json_format`. The limit `maxlen` is an argument that the function does not use.
use tecc.Base.{ℕ, Option, none, some, List, [], ◌∷◌, ◌++◌, leb, if◌then◌else◌, length}
use tecc.Base.Run.{Run, ok, fault, ◌>>=◌}
use tecc.Buffer.Defs.{Buffer, Env, init, puts}

-- The name, in quotes, and a colon.
abbrev pub label : List ℕ → List ℕ
label name = b'"' ∷ (name ++ b'"' ∷ b':' ∷ b' ' ∷ [])

-- A text goes through the array `content` of 128 bytes.
unfoldable pub put_content : Env → List ℕ → Buffer → Run Buffer
put_content env content dst =
    if leb 128 (length content) then fault else (puts env dst (some content) >>= λ r. ok r.1)

unfoldable pub put_label : Env → Option (List ℕ) → Buffer → Run Buffer
put_label env none dst = ok dst
put_label env (some name) dst = put_content env (label name) dst

unfoldable pub json : Env → (Buffer → List ℕ) → Buffer → Option (List ℕ) → ℕ → Run Buffer
json env fields b name maxlen = do
  dst ← init env 80 80
  labelled ← put_label env name dst
  put_content env (fields b) labelled

abbrev pub label_of : Option (List ℕ) → List ℕ
label_of none = []
label_of (some name) = label name
