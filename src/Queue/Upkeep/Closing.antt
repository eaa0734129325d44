-- ===== src/Queue/Upkeep/Closing.antt =====
-- `Close` of pkg/queue/queue.go over topics that hold messages.
use yuclase.Base.{
  ℕ, Bool, true, false, none, List, [], ◌∷◌, bytes_eq, bytes_eq_refl, bytes_eq_iff, if◌then◌else◌,
  ◌≡◌, refl, sym, ap, ◌∙◌, arith,
}
use yuclase.Base.Assoc.{lookup}
use yuclase.Base.Exec.{ok}
use yuclase.Config.{Config}
use yuclase.Storage.Disk.{Disk, On}
use yuclase.Storage.Log.Messages.Sequence.{Message}
use yuclase.Topic.State.{Topic}
use yuclase.Topic.Open.{close as close_topic, load_topic}
use yuclase.Topic.Open.Restart.{Restarts, close-Restarts}
use yuclase.Topic.Messages.Delivery.{Holds}
use yuclase.Queue.State.{Host}
use yuclase.Queue.Upkeep.{each_topic, left_behind}

-- A topic of the map that holds messages, under its own name and with the queue's configuration.
pub record Serves (config : Config) (name : List ℕ) (t : On Topic) : Type 0 where
  pub inode : ℕ
  pub messages : List Message
  pub holds : Holds inode messages t
  pub same_name : t.self.name ≡ name
  pub same_config : t.self.config ≡ config

-- Every topic of the map does, and no name is there twice.
abbrev pub AllServe : Config → List (List ℕ × On Topic) → Type 0
AllServe config [] = Unit
AllServe config ((name, t) ∷ ts) =
    Serves config name t × (lookup name ts ≡ none) × AllServe config ts

-- The map once its topics are closed, and what the directory of all topics lists then.
pub shut : List (List ℕ × On Topic) → List (List ℕ × On Topic)
shut [] = []
shut ((name, t) ∷ ts) = (name, (close_topic t).1) ∷ shut ts

unfoldable pub listed : List (List ℕ × On Topic) → List (List ℕ × Bool)
listed [] = []
listed ((name, t) ∷ ts) = (name, true) ∷ listed ts

module _ {config : Config} {name : List ℕ} (t : On Topic) (x : Serves config name t) where
  pub restarts : Restarts x.inode x.messages t (close_topic t)
  restarts = close-Restarts t x.holds

  pub closes : close_topic t ≡ (ok tt, (close_topic t).1)
  closes = ap (λ r. (r, (close_topic t).1)) restarts.returned

  pub loads :
      load_topic true name config (close_topic t).1.disk
      ≡ (ok restarts.again.self, restarts.again.disk)
  loads =
      ap (λ n. load_topic true n config (close_topic t).1.disk) (sym x.same_name)
      ∙ ap (λ c. load_topic true t.self.name c (close_topic t).1.disk) (sym x.same_config)
      ∙ restarts.loads

pub each_topic-close :
    (config : Config) (message : List ℕ) (ts : List (List ℕ × On Topic))
    → AllServe config ts
    → each_topic message close_topic ts ≡ (ok [], shut ts)
unfolding each_topic shut
each_topic-close config message [] h = refl
each_topic-close config message ((name, t) ∷ ts) (x, new, h) =
    rw (each_topic, (restarts t x).returned)
      (ap (λ p. (p.0, (name, (close_topic t).1) ∷ p.1)) (each_topic-close config message ts h))

pub other_key :
    (k j : List ℕ) (t : On Topic) (ts : List (List ℕ × On Topic))
    → lookup k ((j, t) ∷ ts) ≡ none
    → (bytes_eq k j ≡ false) × (bytes_eq j k ≡ false) × (lookup k ts ≡ none)
unfolding lookup
other_key k j t ts h = (
  ground (arith, bytes_eq_iff j k, bytes_eq_iff k j),
  ground (arith, bytes_eq_iff j k),
  ground (arith, bytes_eq_iff j k),
)

-- The directories of the topics are those that `Close` left.
abbrev pub Left : (List ℕ → Disk) → List (List ℕ × On Topic) → Type 0
Left dir [] = Unit
Left dir ((name, t) ∷ ts) = (dir name ≡ (close_topic t).1.disk) × Left dir ts

Left-put :
    (k : List ℕ) (d : Disk) (dir : List ℕ → Disk) (ts : List (List ℕ × On Topic))
    → lookup k ts ≡ none
    → Left dir ts
    → Left (λ j. if bytes_eq k j then d else dir j) ts
Left-put k d dir [] new h = tt
Left-put k d dir ((name, t) ∷ ts) new (h, l) =
    let (other, _, later) = other_key k name t ts new in (rw other h, Left-put k d dir ts later l)

pub left_behind-Left :
    (config : Config) (ts : List (List ℕ × On Topic)) (s : Host)
    → AllServe config ts
    → Left (left_behind (shut ts) s).directories ts
unfolding left_behind shut
left_behind-Left config [] s h = tt
left_behind-Left config ((name, t) ∷ ts) s (x, new, h) = (
  rw (bytes_eq_refl name) refl,
  Left-put name (close_topic t).1.disk (left_behind (shut ts) s).directories ts new
      (left_behind-Left config ts s h),
)

left_behind-self : (ts : List (List ℕ × On Topic)) (s : Host) → (left_behind ts s).self ≡ s.self
unfolding left_behind
left_behind-self [] s = refl
left_behind-self ((name, t) ∷ ts) s = left_behind-self ts s
