-- ===== src/BootStrap/Stopped.antt =====
-- The end of the program of src/BootStrap.cpp, and the signals of src/aidt.cpp that bring it about.
use aidt.Prelude.{ℕ, ◌≡◌, refl, ap, List, [], ◌∷◌, ◌++◌, Option, none, some, Bytes, bytes_eq}
use aidt.Prelude.Table.{erase}
use aidt.Adbase.{BufferOps, QueueOps}
use aidt.Files.{Disk}
use aidt.DataStore.{FdItem, FileStat, MessageItem}
use aidt.Events.{InotifyEvent}
use aidt.Reader.{World}
use aidt.Reader.Format.{Memory}
use aidt.App.Lifecycle
use aidt.App.Lifecycle.{Running}
use aidt.AdServer.{null, live, deleted}
use aidt.AdServer.Stopped.{stop_twice}
use aidt.Aims
use aidt.BootStrap.{
  BootStrap, Main, producer, servers, application, run, stop, stop_producer, stop_servers,
  stop_application, kill_signal,
}

module _ (b : BufferOps) (q : QueueOps MessageItem) (mem : Memory) (junk : FdItem)
    (worlds : ℕ → World) (contents : ℕ → ℕ → Bytes) (events : QueueOps InotifyEvent)
    (stat : Bytes → Option FileStat) (boot : BootStrap) (queue : List InotifyEvent) (disk : Disk)
    (app : Running) (d : Disk)
    (ended : Lifecycle.stop b q boot.configure mem junk worlds contents events stat boot.app queue
        (record disk { files = erase boot.configure.pid_file disk.files })
      ≡ some (app, d)) where
  -- The producer is stopped first, then the servers, both without undefined behaviour, and then the
  -- application, on the disk without the file of the process' number.
  stop-run :
      boot.stopped ≡ []
      → (after : BootStrap) × (after.app ≡ app)
        × (after.stopped ≡ producer ∷ servers ∷ application ∷ [])
        × (stop b q mem junk worlds contents events stat (run b q mem junk boot) queue disk
            ≡ some (after, d))
  unfolding stop stop_producer stop_servers stop_application run Aims.stop Aims.init
  stop-run none_before =
      let conf = boot.configure in
      let (stopped, first, again) = stop_twice conf in
      (
        record (run b q mem junk boot) {
          aims = record { producer = live; callback = null };
          ad_server = stopped;
          app = app;
          stopped = boot.stopped ++ producer ∷ [] ++ servers ∷ [] ++ application ∷ [];
        },
        refl,
        ap (λ x. x ++ producer ∷ [] ++ servers ∷ [] ++ application ∷ []) none_before,
        rw (first, ended) refl,
      )

  -- When the program runs, no part was stopped yet, and the application stops without undefined
  -- behaviour: a kill signal stops the producer, then the servers, then the application, runs into no
  -- undefined behaviour, and leaves what the application leaves of the disk without the file of the
  -- process' number; a second kill signal uses the program that the first one deleted.
  pub kill_twice :
      (queue' : List InotifyEvent) (disk' : Disk)
      → boot.stopped ≡ []
      → (after : Main) × (kill_signal b q mem junk worlds contents events stat
            (record { boot_main = live; boot = run b q mem junk boot })
            queue
            disk
          ≡ some (after, d))
        × (after.boot.app ≡ app)
        × (after.boot.stopped ≡ producer ∷ servers ∷ application ∷ [])
        × (kill_signal b q mem junk worlds contents events stat after queue' disk' ≡ none)
  unfolding kill_signal
  kill_twice queue' disk' none_before =
      let (after, same, order, e) = stop-run none_before in
      (record { boot_main = deleted; boot = after }, rw e refl, same, order, refl)
