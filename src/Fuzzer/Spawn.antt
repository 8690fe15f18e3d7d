-- ===== src/Fuzzer/Spawn.antt =====
-- src/mishegos/mishegos.c: `worker_start`, and the pipe that holds a new process back.
pub mod Found
use mishegos.Base.{ℕ, ◌≡◌, Bool, true, false, Option, none, some, ◌==◌, if◌then◌else◌}
use mishegos.Fuzzer.Worker.{update}
use mishegos.Fuzzer.Crew.{Worker}

-- A thread or a process is started, or the program ends with an error.
pub data Started : Type 0 where
  threaded : Started
  refused : Started
  forked : ℕ → Started

abbrev pub by_fork : Option ℕ → Started
by_fork none = Started.refused
by_fork (some child) = Started.forked child

-- `piped` says whether pipe succeeds, `fork` is the new process.
unfoldable pub worker_start : Bool → Bool → Option ℕ → Started
worker_start true piped fork = Started.threaded
worker_start false piped fork = if piped then by_fork fork else Started.refused

-- Where the parent is behind fork: it is about to store the pid, to write its byte, or to close the
-- pipe; it is done; or it has died, and its end of the pipe is closed.
pub data Parent : Type 0 where
  stores : Parent
  writes : Parent
  closes : Parent
  done : Parent
  lost : Parent

-- The new process is about to read, or is in `worker`; it has died there, or it has found the pipe closed.
pub data Child : Type 0 where
  reads : Child
  runs : Child
  died : Child
  exited : Child

pub record Spawning : Type 0 where
  pub workers : ℕ → Worker
  pub parent : Parent
  pub child : Child
  pub written : Bool

-- The next step of the parent, which starts the worker at index `i` as the process `pid`.
unfoldable pub parent_step : ℕ → ℕ → Parent → Spawning → Spawning
parent_step i pid Parent.stores s = record s {
  workers = update s.workers i (record (s.workers i) { pid = pid });
  parent = Parent.writes;
}
parent_step i pid Parent.writes s = record s { written = true; parent = Parent.closes }
parent_step i pid Parent.closes s = record s { parent = Parent.done }
parent_step i pid Parent.done s = s
parent_step i pid Parent.lost s = s

-- The pipe has an end to write to as long as the parent has not closed it.
abbrev pub closed : Parent → Bool
closed Parent.stores = false
closed Parent.writes = false
closed Parent.closes = false
closed Parent.done = true
closed Parent.lost = true

-- `read` waits until there is a byte or the other end is closed.
unfoldable pub child_step : Child → Spawning → Spawning
child_step Child.reads s =
    if s.written
    then record s { child = Child.runs }
    else if closed s.parent
    then record s { child = Child.exited }
    else s
child_step Child.runs s = record s { child = Child.died }
child_step Child.died s = s
child_step Child.exited s = s

-- Both processes go on, in any order, and the parent can die.
module _ (i pid : ℕ) (workers : ℕ → Worker) where
  pub data Spawns : Spawning → Type 0 where
    begin :
        worker_start false true (some pid) ≡ Started.forked pid
        → Spawns (record {
          workers = workers;
          parent = Parent.stores;
          child = Child.reads;
          written = false;
        })
    parent_goes : {s : Spawning} → Spawns s → Spawns (parent_step i pid s.parent s)
    child_goes : {s : Spawning} → Spawns s → Spawns (child_step s.child s)
    parent_dies : {s : Spawning} → Spawns s → Spawns (record s { parent = Parent.lost })
