-- ===== src/Tests/Commands.antt =====
-- Runs of the commands (cmd).
use crypt_fs.Prelude.{◌≡◌, refl, arith, none, some, true, [], Bytes, bytes_eq}
use crypt_fs.Prelude.Text.{codes}
use crypt_fs.Storage.{failed, error_text}
use crypt_fs.Storage.Versioned.{new_versioned_wrapper}
use crypt_fs.Storage.Versioned.Refinement.{Refines, put_entry, wrapper_put-Refines}
use crypt_fs.Storage.Uri.{in_memory, on_disk, in_bitcask, at_separator}
use crypt_fs.Server.{ServerConn}
use crypt_fs.Server.Locked.{wrap_conn}
use crypt_fs.Server.Rounds.{lets_in}
use crypt_fs.Message.Encoding.{eof}
use crypt_fs.Node.Metadata.Format.{metadata_bytes}
use crypt_fs.Node.Tree.{Tree}
use crypt_fs.Commands.{exits, init_config, full_version}
use crypt_fs.Commands.Servers.{
  plain_options, fatal, serves, blob_fatal, metaserver, meta_run, blobserver, blob_run,
  metaserver_lem,
}
use crypt_fs.Commands.Mount.{mounts, root_key, load_root}
use crypt_fs.Commands.Mount.Root.{RootOf, Unrooted, load_root_lem}
use crypt_fs.Tests.Reload.{
  plain, memory, memory-IsMap, no_entries, empty-Refines, saved, saved-IsStored,
}

abbrev a_conn : ServerConn Bytes
a_conn = wrap_conn 1 (record { stream = []; fault = eof }) []

-- The store of a URI, over a database that cannot be opened.
metaserver_lem_example :
    (metaserver (λ path. some (failed (codes "locked"))) true (codes ":7000") (codes "memory://db")
      ≡ serves (plain_options (codes ":7000") in_memory))
    × (metaserver (λ path. some (failed (codes "locked"))) true (codes ":7000") (codes "disk://db")
        ≡ serves (plain_options (codes ":7000") (on_disk (codes "db"))))
    × (metaserver
          (λ path. some (failed (codes "locked")))
          true
          (codes ":7000")
          (codes "bitcask://db")
        ≡ fatal
            (codes "Could not instantiate backend store: error opening bitcask database: locked"))
    × (lets_in (plain_options (codes ":7000") in_memory) a_conn ≡ true)
unfolding error_text at_separator
metaserver_lem_example =
    metaserver_lem (λ path. some (failed (codes "locked"))) true (codes ":7000") (codes "db")
      in_memory a_conn (refl, (refl, tt))

-- Nothing is set: the database of the default store is opened.
defaults :
    meta_run (λ path. none) true none none
    ≡ serves (plain_options (codes ":8000") (in_bitcask (codes "dinofs.db")))
unfolding meta_run at_separator
defaults =
    let (memory_, disk, bitcask, open_) =
      metaserver_lem (λ path. none) true (codes ":8000") (codes "dinofs.db") in_memory a_conn
        (refl, (refl, (refl, (refl, (refl, (refl, (refl, (refl, (refl, tt))))))))) in
    bitcask

no_directory :
    blob_run (λ path. path) (λ path. some (failed (codes "denied"))) true none none
    ≡ blob_fatal (codes "Could not ensure directory ./data exists: denied")
unfolding blob_run blobserver error_text
no_directory = refl

no_home : init_config [] none ≡ exits 1
unfolding init_config
no_home = refl

a_version :
    full_version
      (codes "0.1")
      (codes "abc")
      (some (record { main_version = codes "v1"; go_version = codes "go1.20"; main_sum = [] }))
    ≡ codes "0.1@abc v1 built with go1.20"
unfolding full_version
a_version = refl

abbrev no_nodes : memory.State → Tree plain memory (new_versioned_wrapper memory)
no_nodes st = record { cells = λ p. none; next = 0; known = []; stores = ([], st) }

put_root :
    (st : memory.State) × Refines memory memory-IsMap st
      (put_entry 5 root_key (metadata_bytes saved) no_entries)
put_root =
    let (st, done, refines) =
      wrapper_put-Refines memory memory-IsMap 5 root_key (metadata_bytes saved) [] no_entries
        (omega arith) empty-Refines in
    (st, refines)

load_root_lem_example :
    (w' : Tree plain memory (new_versioned_wrapper memory)) × (load_root plain memory
        (new_versioned_wrapper memory)
        (no_nodes put_root.0)
      ≡ some (mounts 0 w'))
    × RootOf w' 0 (some (5, saved))
    × Refines memory memory-IsMap w'.stores.1
        (put_entry 5 root_key (metadata_bytes saved) no_entries)
unfolding bytes_eq
load_root_lem_example =
    load_root_lem plain memory memory memory-IsMap (some (5, saved)) (no_nodes put_root.0)
      (put_entry 5 root_key (metadata_bytes saved) no_entries) saved-IsStored put_root.1 refl

an_empty_root :
    (w' : Tree plain memory (new_versioned_wrapper memory)) × (load_root plain memory
        (new_versioned_wrapper memory)
        (no_nodes [])
      ≡ some (mounts 0 w'))
    × Unrooted w' 0
    × Refines memory memory-IsMap w'.stores.1 no_entries
an_empty_root =
    load_root_lem plain memory memory memory-IsMap none (no_nodes []) no_entries tt empty-Refines
      refl
