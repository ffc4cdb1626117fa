-- ===== src/Services/Exchange/Machine/Tasks.antt =====
-- Exchanges that run at the same time, as tasks over one cache and one table (the handlers of
-- src/handlers/exchange.rs on the threads of actix), beside the refresh in the background and the
-- purge. Each step of a task has a network, a clock and faults of its own.
use jwt_exchange.Prelude.{String, ◌≡◌, Bool, true, false, Option, none, List, [], ◌∷◌, ◌++◌, All}
use jwt_exchange.Prelude.Int.{ℤ, ◌≤ℤ◌}
use jwt_exchange.Crates.{Crates, Client}
use jwt_exchange.Config.{AppConfig}
use jwt_exchange.Auth.Jwks.{fetch_jwks_with_etag, refreshed}
use jwt_exchange.Auth.Jwks.Interleaved.{Answer, answer}
use jwt_exchange.Db.Replay.{Row, Fault, groups_int, replay_write, strict_write, purge_expired_jtis}
use jwt_exchange.Db.Replay.Interleaved.{note, row}
use jwt_exchange.Services.Mint.{Moment, has_groups, replay_id_of, expiry_of}
use jwt_exchange.Services.Exchange.{Shared}
use jwt_exchange.Services.Exchange.Machine.{Phase, arrived, waiting, valid, cleared, advance}

-- A predicate on the tasks of a list, taken apart at one task and put together with another.
pub All-take :
    {A : Type 0} (P : A → Type 0) (earlier later : List A) (a : A)
    → All P (earlier ++ a ∷ later)
    → P a × All P (earlier ++ later)
All-take P [] later a h = h
All-take P (x ∷ earlier) later a (p, h) =
    let (q, rest) = All-take P earlier later a h in (q, (p, rest))

pub All-put :
    {A : Type 0} (P : A → Type 0) (earlier later : List A) (a : A)
    → P a
    → All P (earlier ++ later)
    → All P (earlier ++ a ∷ later)
All-put P [] later a p h = (p, h)
All-put P (x ∷ earlier) later a p (q, h) = (q, All-put P earlier later a p h)

pub All-map :
    {A : Type 0} {P Q : A → Type 0} (f : (a : A) → P a → Q a) (xs : List A) → All P xs → All Q xs
All-map f [] h = h
All-map f (x ∷ xs) (p, h) = (f x p, All-map f xs h)

module _ (X : Crates) where
  open X use {Jwk, EncodingKey}

  pub record Task : Type 0 where
    pub raw_token : String
    pub requested : Option (List String)
    pub phase : Phase X

  -- The state that the tasks share; the tasks; the refreshes in the background, with the address and
  -- the tag that they have read; the rows that a check has accepted; and the answers that tasks and
  -- refreshes have got from the network, each the last first.
  pub record System : Type 0 where
    pub shared : Shared Jwk
    pub tasks : List Task
    pub background : List (String × Option String)
    pub accepted : List Row
    pub answered : List (Answer Jwk)

  -- The row that an accepted write of a task has under each mode.
  abbrev pub accepts_at :
      Bool → Moment → String → ℤ → Option (List String) → Shared Jwk → List Row → List Row
  accepts_at true m id exp requested s acc =
      note (replay_write m.faults.write id exp (has_groups requested) s.used).0
        (row id (groups_int (has_groups requested)) exp) acc
  accepts_at false m id exp requested s acc = acc

  -- What the next step of a task adds to the accepted rows.
  abbrev pub accepts :
      AppConfig
      → Moment
      → String
      → Option (List String)
      → Phase X
      → Shared Jwk
      → List Row
      → List Row
  accepts config m raw requested (valid claims sub) s acc =
      accepts_at config.allow_replay m (replay_id_of X raw claims) (expiry_of X claims) requested s
        acc
  accepts config m raw requested (cleared claims sub) s acc =
      note (strict_write m.faults.write (replay_id_of X raw claims) (expiry_of X claims) s.used).0
        (row (replay_id_of X raw claims) 0 (expiry_of X claims)) acc
  accepts config m raw requested _ s acc = acc

  -- What the next step of a task adds to the answers.
  abbrev pub answers : Moment → Phase X → List (Answer Jwk) → List (Answer Jwk)
  answers m (waiting kid uri) answered = answer X m.client uri none ∷ answered
  answers m _ answered = answered

  abbrev pub moved :
      AppConfig → Moment → EncodingKey → List Task → Task → List Task → System → System
  moved config m key earlier t later s =
      let (p, shared) = advance X config key t.raw_token t.requested m t.phase s.shared in
      record {
        shared = shared;
        tasks = earlier ++ (record t { phase = p }) ∷ later;
        background = s.background;
        accepted = accepts config m t.raw_token t.requested t.phase s.shared s.accepted;
        answered = answers m t.phase s.answered;
      }

  -- A request arrives; a task makes its next step; a refresh in the background reads its address and
  -- its tag, or gets its answer; or a purge runs, with a clock that is not past `horizon`.
  pub data Step (config : AppConfig) (horizon : ℤ) : System → System → Type 0 where
    arrive :
        (s : System) (raw_token : String) (requested : Option (List String))
        → Step config horizon s (record s {
          tasks =
              record { raw_token = raw_token; requested = requested; phase = arrived } ∷ s.tasks;
        })
    move :
        (s : System) (m : Moment) (key : EncodingKey) (earlier : List Task) (t : Task)
        (later : List Task)
        → s.tasks ≡ earlier ++ t ∷ later
        → Step config horizon s (moved config m key earlier t later s)
    read :
        (s : System)
        → Step config horizon s (record s {
          background = (s.shared.cache.jwks_uri, s.shared.cache.etag) ∷ s.background;
        })
    renew :
        (s : System) (client : Client) (uri : String) (etag : Option String)
        (earlier later : List (String × Option String))
        → s.background ≡ earlier ++ (uri, etag) ∷ later
        → Step config horizon s (record s {
          shared = record s.shared {
            cache = (refreshed X (fetch_jwks_with_etag X client uri etag) s.shared.cache).1;
          };
          background = earlier ++ later;
          answered = answer X client uri etag ∷ s.answered;
        })
    purge :
        (s : System) (f : Fault) (now : ℤ)
        → now ≤ℤ horizon
        → Step config horizon s (record s {
          shared = record s.shared { used = (purge_expired_jtis f now s.shared.used).1 };
        })

  pub data Reach (config : AppConfig) (horizon : ℤ) (s : System) : System → Type 0 where
    here : Reach config horizon s s
    next :
        {t u : System}
        → Reach config horizon s t
        → Step config horizon t u
        → Reach config horizon s u

  abbrev pub start : Shared Jwk → System
  start shared = record {
    shared = shared;
    tasks = [];
    background = [];
    accepted = [];
    answered = [];
  }
