-- ===== src/Server/Program.antt =====
-- cmd/main.go, with `NewServer`, `Start` and `GetServerStats` of internal/network/server.go.
use yuclase.Base.{ℕ, Bool, false, List, [], ◌++◌}
use yuclase.Base.Int64.{ℤ}
use yuclase.Base.Bytes.{codes}
use yuclase.Base.Exec.{Error, wrap, error_text, Result, ok, err, panic, deadlock, stuck, wrapping}
use yuclase.Config.{Config, get_server_address}
use yuclase.Config.Load.{World, load_config}
use yuclase.Storage.Disk.{Disk}
use yuclase.Queue.State.{free, Host}
use yuclase.Queue.Upkeep.{Listing, new_queue}
use yuclase.Server.Life.{Handler, get_client_count}

-- What surrounds the program: the data directory, the directories of the topics, what the directory
-- of all topics lists, and the result of `net.Listen`.
pub record Site : Type 0 where
  pub world : World
  pub made : Bool
  pub directories : List ℕ → Disk
  pub listing : Listing
  pub listen : Result (Unit {0})

-- `exited` is the end of the program with code 1 and a message; `serving` is the wait of `Start`
-- for the end of its context, which nothing of the program ends, over this queue.
pub data Outcome : Type 0 where
  exited : List ℕ → Outcome
  serving : Host → Outcome
  crashed hanging : Outcome

-- log.Fatalf("…: %v", err)
abbrev fatal : List ℕ → Error → Outcome
fatal message e = exited (message ++ codes ": " ++ error_text e)

-- `NewServer`
unfoldable pub new_server : Site → Config → Result (Unit {0}) × Host
new_server site config =
    wrapping (codes "failed to create queue") (new_queue site.made site.listing) (record {
      self = record { lock = free; topics = []; config = config; closed = false };
      directories = site.directories;
    })

-- `Start`
unfoldable pub start : Result (Unit {0}) → Host → Outcome
start (ok u) s = serving s
start (err e) s =
    fatal (codes "Failed to start server")
      (wrap (codes "failed to listen on " ++ get_server_address s.self.config) e)
start panic s = crashed
start deadlock s = hanging
start stuck s = hanging

created : Site → Result (Unit {0}) × Host → Outcome
unfolding start
created site (ok u, s) = start site.listen s
created site (err e, s) = fatal (codes "Failed to create server") e
created site (panic, s) = crashed
created site (deadlock, s) = hanging
created site (stuck, s) = hanging

configured : Site → Result Config → Outcome
unfolding created new_server
configured site (ok c) = created site (new_server site c)
configured site (err e) = fatal (codes "Failed to load config") e
configured site panic = crashed
configured site deadlock = hanging
configured site stuck = hanging

-- `main` of cmd/main.go
unfoldable pub main : Site → Outcome
unfolding configured
main site = configured site (load_config site.world (codes "config.yaml"))

pub record ServerStats : Type 0 where
  pub client_count : ℕ
  pub uptime : List ℕ
  pub address : List ℕ

-- `GetServerStats`: `elapsed` is the time between two readings of the clock in one expression, and
-- `show` is `time.Duration.String`.
unfoldable pub get_server_stats : (ℤ → List ℕ) → ℤ → List Handler → Config → ServerStats
unfolding get_client_count get_server_address
get_server_stats show elapsed clients config = record {
  client_count = get_client_count clients;
  uptime = show elapsed;
  address = get_server_address config;
}
