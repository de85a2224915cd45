-- ===== src/Tests/Storage.antt =====
-- A vector over the keys [5, 10) against a map.
use flexps.Base.{ℕ, ◌≡◌, refl, List, [], ◌∷◌, some, arith, length}
use flexps.Message.{Chars}
use flexps.Server.PendingBuffer
use flexps.Server.PendingBuffer.{waiting, size_lem}
use flexps.Server.Storage.MapStorage
use flexps.Server.Storage.MapStorage.{MapStorage}
use flexps.Server.Storage.VectorStorage
use flexps.Server.Storage.VectorStorage.{VectorStorage}
use flexps.Server.Storage.Refinement.{Agrees, Refines, make-Agrees, sub_add-Refines, sub_get-Agrees}
use flexps.Tests.Fixtures.{plain, numbers}

abbrev zeros : VectorStorage ℕ
zeros = record { first = 5; last = 8; storage = 0 ∷ 0 ∷ 0 ∷ [] }

zeros-Agrees : Agrees zeros []
unfolding VectorStorage.make
zeros-Agrees = make-Agrees 5 8 zeros refl

abbrev keys : List ℕ
keys = 7 ∷ 5 ∷ 7 ∷ []

abbrev vals : List ℕ
vals = 1 ∷ 2 ∷ 3 ∷ []

sub_add-Refines_example :
    (m' : MapStorage ℕ) × (MapStorage.sub_add keys vals [] ≡ some m')
    × Refines zeros (VectorStorage.sub_add keys vals zeros) m'
sub_add-Refines_example = sub_add-Refines keys vals zeros [] zeros-Agrees (omega arith) refl

sub_get-Agrees_example :
    (chars : Chars) × (m' : MapStorage ℕ) × (VectorStorage.sub_get keys zeros ≡ some (chars, zeros))
    × (MapStorage.sub_get keys [] ≡ some (chars, m'))
    × Agrees zeros m'
sub_get-Agrees_example = sub_get-Agrees keys zeros [] zeros-Agrees (omega arith)

size_lem_example :
    ((PendingBuffer.size 3 []).0 ≡ length (waiting 3 []))
    × (waiting 2 (PendingBuffer.size 3 []).1 ≡ waiting 2 [])
size_lem_example = size_lem 2 3 []
