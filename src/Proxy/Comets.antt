-- ===== src/Proxy/Comets.antt =====
-- `updatingCometQue` of proxy/zoo.go, on the queue of common/queue.go.
use erina.Base.{
  if◌then◌else◌, Bool, true, false, List, [], ◌∷◌, ◌++◌, Option, none, some, text_same, text_key,
}
use erina.Base.Partial.{◌>>=◌}
use erina.Sentinel.Types.{Text}
use erina.Sentinel.Routes.{split_at}
use erina.Queue.Types.{Queue}
use erina.Queue.Ends.{put}
use erina.Queue.Search.{contains}
use erina.Queue.Retrain.{retrain}
pub mod Kept

-- "udp://" and "tcp://".
abbrev pub udp : Text
udp = 117 ∷ 100 ∷ 112 ∷ 58 ∷ 47 ∷ 47 ∷ []

abbrev pub tcp : Text
tcp = 116 ∷ 99 ∷ 112 ∷ 58 ∷ 47 ∷ 47 ∷ []

-- What a node of the directory announces: the url of a gateway, which is kept, or the empty url.
pub data Announced : Type 0 where
  malformed : Announced
  live : Text → Announced
  unknown : Announced

abbrev pub kind_of : Text → Text → Announced
kind_of adr kind =
    if text_same kind (49 ∷ [])
    then live (udp ++ adr)
    else (if text_same kind (50 ∷ []) then live (tcp ++ adr) else unknown)

abbrev pub of_fields : List Text → Announced
of_fields (adr ∷ cpu ∷ total ∷ used ∷ online ∷ spare ∷ kind ∷ []) = kind_of adr kind
of_fields _ = malformed

unfoldable pub announced : Text → Announced
unfolding split_at
announced zdata = of_fields (split_at 44 zdata)

-- `Put` of a url that is not in the queue; `none` is a panic, or a queue that is full.
unfoldable pub put_new : Queue Text → Text → Option (Queue Text)
unfolding put contains
put_new q url = do
  there ← contains q (some url)
  if there then some q else (put q (some url) >>= λ r. if r.1 then some r.0 else none)

-- One node: the queue, and the urls to keep.
abbrev pub enrol :
    Queue Text → List (Option Text) → Announced → Option (Queue Text × List (Option Text))
enrol q keep malformed = some (q, keep)
enrol q keep (live url) = put_new q url >>= λ q1. some (q1, keep ++ (some url ∷ []))
enrol q keep unknown = put_new q [] >>= λ q1. some (q1, keep)

-- `none` is a node whose data cannot be read.
abbrev pub read_node : Option Text → Announced
read_node none = malformed
read_node (some zdata) = announced zdata

unfoldable pub enrol_all :
    Queue Text → List (Option Text) → List Announced → Option (Queue Text × List (Option Text))
unfolding put_new
enrol_all q keep [] = some (q, keep)
enrol_all q keep (a ∷ nodes) = enrol q keep a >>= λ r. enrol_all r.0 r.1 nodes

abbrev pub read_all : List (Option Text) → List Announced
read_all [] = []
read_all (n ∷ nodes) = read_node n ∷ read_all nodes

-- `order` is the order in which the runtime walks the map of `Retrain`.
unfoldable pub updating_comet_que :
    (List (Option Text) → List (Option Text))
    → Queue Text
    → List (Option Text)
    → Option (Queue Text)
unfolding enrol_all announced retrain
updating_comet_que order q nodes = enrol_all q [] (read_all nodes) >>= λ r. retrain order r.0 r.1
