-- ===== src/Metadata/Http.antt =====
-- What metadata/metadata.go uses of net/http and of the recorder of httptest.
use teleskop.Common.{ℕ, String, Bool, true, false, List, [], ◌∷◌, ◌++◌, if◌then◌else◌}
use teleskop.Go.Error.{Error}
use teleskop.Go.Text.{Text}

-- What is written into a body: bytes, or the message that a format makes of an error.
pub data Body : Type 0 where
  bytes : Text → Body
  message : String → Error → Body

pub record Request : Type 0 where
  pub path : Text
  pub remote_addr : Text

-- A response as far as it is written: the headers, whether the code is sent, the code and the body.
pub record Recorder : Type 0 where
  pub headers : List (Text × Text)
  pub wrote_header : Bool
  pub code : ℕ
  pub body : List Body

abbrev pub new_recorder : Recorder
new_recorder = record { headers = []; wrote_header = false; code = 200; body = [] }

-- The first code that is sent stays.
unfoldable pub write_header : ℕ → Recorder → Recorder
write_header code rec =
    if rec.wrote_header then rec else record rec { wrote_header = true; code = code }

-- A body without a code before it is sent with 200.
unfoldable pub write : Body → Recorder → Recorder
unfolding write_header
write part rec = let sent = write_header 200 rec in record sent { body = sent.body ++ part ∷ [] }

-- io.Copy(w, rec.Body)
unfoldable pub copy : List Body → Recorder → Recorder
unfolding write
copy [] rec = rec
copy (part ∷ parts) rec = copy parts (write part rec)
