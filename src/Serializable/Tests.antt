-- ===== src/Serializable/Tests.antt =====
-- Instances of the theorems on serializable objects at a codec that writes the content as it is.
use servus.Prelude.{none, ◌==◌, if◌then◌else◌, true, [], ◌++◌, some, ◌≡◌, refl, ap, sym}
use servus.Bytes.{Bytes, codes}
use servus.Serializable.{Result, Callbacks, Codec, run, from_binary, to_binary, notify_serialize}
use servus.Serializable.Data.{Data, Heap, bytes_at, bytes_of}
use servus.Serializable.Laws.{live, from_binary-to_binary}

abbrev plain : Codec Bytes
plain = record {
  type_name = codes "plain";
  read_binary = λ s bytes. (bytes, Result.returned true);
  write_binary = λ s. Result.returned s;
  read_json = λ s json. (json, Result.returned true);
  write_json = λ s. Result.returned s;
}

-- The callbacks put a mark behind the content.
abbrev marks : Callbacks Bytes
marks = record { deserialized = some (λ s. s ++ codes "!"); serialize = some (λ s. s ++ codes "?") }

payload : Result Bytes → Bytes
payload (Result.returned b) = b
payload (Result.thrown e) = []
payload Result.fault = []

plain_reads :
    (s t b : Bytes)
    → plain.write_binary s ≡ Result.returned b
    → plain.read_binary t b ≡ (s, Result.returned true)
unfolding payload
plain_reads s t b h = ap (λ x. (x, Result.returned true)) (ap payload (sym h))

written : (to_binary plain (live (codes "a") marks)).1 ≡ Result.returned (codes "a?")
unfolding to_binary notify_serialize run
written = refl

from_binary-to_binary_example :
    from_binary plain (live (codes "b") marks) (codes "a?")
    ≡ (live (run marks.deserialized (run marks.serialize (codes "a"))) marks, Result.returned true)
from_binary-to_binary_example =
    from_binary-to_binary plain (codes "a") (codes "b") marks marks (codes "a?") plain_reads written

abbrev first_mark : Bytes → Bytes
first_mark s = s ++ codes "1"

abbrev second_mark : Bytes → Bytes
second_mark s = s ++ codes "2"

-- A heap with one block, of which data has the first two bytes.
abbrev heap : Heap
heap q = if q == 1 then some (codes "abc") else none

abbrev ab : Data
ab = record { ptr = some 1; size = 2 }

ab_there : bytes_of heap ab ≡ some (codes "ab")
unfolding bytes_at
ab_there = refl
