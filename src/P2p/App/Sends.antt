-- ===== src/P2p/App/Sends.antt =====
-- What is published before a topic has a mesh is sent when the mesh forms.
use laye.Base.{◌∷◌, [], List, Bytes}
use laye.Net.{Net}
use laye.P2p.App.{AppState, enqueue_send, publish_opaque}

-- The host publishes several frames on one topic.
abbrev pub publish_all : Bytes → Bytes → List Bytes → AppState → AppState
publish_all now topic [] st = st
publish_all now topic (b ∷ bs) st = publish_all now topic bs (publish_opaque now topic b st)

abbrev enqueue_all : Bytes → List Bytes → AppState → AppState
enqueue_all topic [] st = st
enqueue_all topic (b ∷ bs) st = enqueue_all topic bs (enqueue_send topic b st)
