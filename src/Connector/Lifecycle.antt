-- ===== src/Connector/Lifecycle.antt =====
-- src/ssp-client-iso.cpp: starting and stopping the connector and the thread that reads it. `P` stands for
-- the pipe of OBS, and the argument of a start is what `os_process_pipe_create` returned. The signal Start
-- is delivered at once where it is emitted in the client's own thread, else later by the event loop.
pub mod Runs
use obs_zcamera.Prelude.{
  ℕ, zero, suc, ◌+◌, ◌-◌, Bool, true, false, Option, none, some, List, [], ◌∷◌, ◌++◌, Text, codes,
  if◌then◌else◌,
}

pub record SspClientIso (P : Type 0) : Type 0 where
  pub running : Bool
  pub pipe : Option P
  -- `worker` holds a thread that was not joined.
  pub joinable : Bool
  -- The signals that the event loop has yet to deliver.
  pub queued : ℕ
  -- The connectors that were started and the ones that were ended, the latest last.
  pub created : List P
  pub destroyed : List P
  -- A thread was assigned to `worker` before it was joined, which ends the whole program.
  pub aborted : Bool

-- The command line of the connector.
unfoldable pub command : Text → Text → Text
command connector_path ip =
    b'"'
    ∷ (connector_path
        ++ (codes "\" " ++ (codes "--host " ++ (ip ++ (codes " --port " ++ codes "9999")))))

module _ {P : Type 0} where
  abbrev pub new : SspClientIso P
  new = record {
    running = false;
    pipe = none;
    joinable = false;
    queued = 0;
    created = [];
    destroyed = [];
    aborted = false;
  }

  unfoldable pub do_start : Option P → SspClientIso P → SspClientIso P
  do_start none c = c
  do_start (some pipe) c =
      if c.joinable
      then record c {
        running = true;
        pipe = some pipe;
        created = c.created ++ pipe ∷ [];
        aborted = true;
      }
      else record c {
        running = true;
        pipe = some pipe;
        created = c.created ++ pipe ∷ [];
        joinable = true;
      }

  -- The pipe is destroyed after the thread has returned.
  unfoldable pub destroy_pipe : Option P → SspClientIso P → SspClientIso P
  destroy_pipe none c = c
  destroy_pipe (some pipe) c = record c { pipe = none; destroyed = c.destroyed ++ pipe ∷ [] }

  unfoldable pub stop : SspClientIso P → SspClientIso P
  stop c =
      if c.running then destroy_pipe c.pipe (record c { running = false; joinable = false }) else c

  -- `emit Start()` in the client's own thread and in another one.
  unfoldable pub restart : Option P → SspClientIso P → SspClientIso P
  restart created c = do_start created (stop c)

  unfoldable pub restart_elsewhere : SspClientIso P → SspClientIso P
  restart_elsewhere c = let c' = stop c in record c' { queued = suc c'.queued }

  unfoldable pub deliver : Option P → SspClientIso P → SspClientIso P
  deliver created c = deliver_queued c.queued created c
    where
      deliver_queued : ℕ → Option P → SspClientIso P → SspClientIso P
      deliver_queued zero created c = c
      deliver_queued (suc n) created c = do_start created (record c { queued = n })
