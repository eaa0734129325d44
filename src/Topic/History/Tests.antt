-- ===== src/Topic/History/Tests.antt =====
-- The theorems on the life of a topic at concrete inputs.
use yuclase.Base.{List, [], ◌∷◌, refl, arith, bytes_eq}
use yuclase.Base.Bytes.{codes}
use yuclase.Config.Load.{defaults}
use yuclase.Storage.Samples.{empty_disk}
use yuclase.Topic.History.{Event, put, get, wait, restart}
use yuclase.Topic.History.Forgetting.{Forgets, new_topic-Forgets}

-- A message before a restart and one after it.
abbrev two_sessions : List Event
two_sessions =
    put (codes "hi")
    ∷ get (codes "c") 5
    ∷ restart
    ∷ wait 2000
    ∷ put (codes "you")
    ∷ get (codes "c") 5
    ∷ get (codes "d") 1
    ∷ []

-- One session of the program.
abbrev one_session : List Event
one_session = put (codes "hi") ∷ get (codes "c") 5 ∷ put (codes "you") ∷ get (codes "c") 5 ∷ []

forget_example : Forgets (codes "orders") defaults empty_disk one_session
unfolding bytes_eq defaults
forget_example =
    new_topic-Forgets (codes "orders") defaults empty_disk
      (record { entries = refl; no_index = refl; no_catalog = refl; healthy = λ x. refl }) 999 refl
      (omega arith) one_session refl tt (omega arith)
