-- ===== src/Response/Tests.antt =====
-- Runs of the response buffers, and the theorems at concrete responses.
use wrkx.Prelude.{ℕ, ◌+◌, ◌≤◌, ◌≡◌, refl, some, List, [], ◌∷◌, ◌++◌, map, replicate, ◌>>=◌, arith}
use wrkx.Buffer.Defs.{Buffer, buffer_append}
use wrkx.Buffer.Samples.{clearing, no_buffer}
use wrkx.Buffer.Room.{IsValid, contents, buffer_append_lem}
use wrkx.Response.Defs.{Response, field, on_body, callbacks, deliver}
use wrkx.Response.Steps.{Holds, Header, flatten}
use wrkx.Response.Encoding.{headers_calls, encode_all, sent}
use wrkx.Response.Roundtrip.{IsClean, Delivered, script-gets-response}
use wrkx.Response.Stale.{stale_header}

abbrev fresh : Response
fresh = record { state = field; headers = no_buffer; body = no_buffer }

no_buffer-Holds : Holds no_buffer []
no_buffer-Holds = record { valid = record { sized = refl; within = omega arith }; text = refl }

fresh-IsClean : IsClean fresh
fresh-IsClean = record { state = refl; headers = no_buffer-Holds; body = no_buffer-Holds }

-- "Age: 7" and "X: ab", with the first name in two pieces
abbrev age : Header
age = record {
  name = record { first = b'A' ∷ []; more = (b'g' ∷ b'e' ∷ []) ∷ [] };
  val = record { first = b'7' ∷ []; more = [] };
}

abbrev mark : Header
mark = record {
  name = record { first = b'X' ∷ []; more = [] };
  val = record { first = b'a' ∷ []; more = (b'b' ∷ []) ∷ [] };
}

abbrev pieces : List (List ℕ)
pieces = (b'h' ∷ []) ∷ (b'i' ∷ []) ∷ []

buffer_append_lem_example :
    (c : Buffer) × (buffer_append clearing no_buffer (b'h' ∷ b'i' ∷ []) ≡ some c)
    × IsValid c
    × (contents c ≡ b'h' ∷ b'i' ∷ [])
    × (c.cursor + 2 ≤ c.length)
buffer_append_lem_example =
    buffer_append_lem clearing no_buffer (b'h' ∷ b'i' ∷ []) no_buffer-Holds.valid (omega arith)

script-gets-response_example :
    (r' : Response) × ((callbacks clearing fresh
          (headers_calls (age ∷ mark ∷ []) ++ map on_body pieces)
        >>= deliver 200)
      ≡ some (
        some (record { status = 200; headers = map sent (age ∷ mark ∷ []); body = flatten pieces }),
        r',
      ))
    × Delivered (encode_all (age ∷ mark ∷ [])) r'
script-gets-response_example =
    script-gets-response clearing 200 age (mark ∷ []) pieces fresh fresh-IsClean (omega arith)
      (omega arith) (omega arith)

-- what a response with the header "Age: 7" alone leaves in the connection's buffers
abbrev used_block : List ℕ
used_block = encode_all (age ∷ []) ++ replicate 1018 0

abbrev after_age : Response
after_age = record fresh { headers = record { block = some used_block; length = 1024; cursor = 0 } }

after_age-Delivered : Delivered (encode_all (age ∷ [])) after_age
after_age-Delivered = record {
  clean = record {
    state = refl;
    headers = record { valid = record { sized = refl; within = omega arith }; text = refl };
    body = no_buffer-Holds;
  };
  behind = replicate 1018 0;
  block = refl;
}

stale_header_example :
    (r' : Response) × ((callbacks clearing after_age (map on_body pieces) >>= deliver 204)
      ≡ some (
        some (record {
          status = 204;
          headers = ([], b'g' ∷ b'e' ∷ []) ∷ [];
          body = b'h' ∷ b'i' ∷ [];
        }),
        r',
      ))
stale_header_example =
    stale_header clearing 204 age [] b'A' (b'g' ∷ b'e' ∷ []) pieces after_age after_age-Delivered
      refl (omega arith) (omega arith)
