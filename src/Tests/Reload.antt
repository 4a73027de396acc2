-- ===== src/Tests/Reload.antt =====
-- A run of the invalidation and the reload of a node (pkg/node).
use crypt_fs.Prelude.{
  ◌++◌, ℕ, ◌≡◌, inl, inr, refl, sym, ◌∙◌, arith, none, some, true, false, ◌==◌, [], ◌∷◌, Bytes,
  lookup, bytes_eq, bytes_eq_iff, if◌then◌else◌, replicate,
}
use crypt_fs.Message.{Message, kind_put, new_put_message}
use crypt_fs.Message.Encoding
use crypt_fs.Message.Encoding.{eof}
use crypt_fs.Message.Encoding.Wire
use crypt_fs.Message.Encoding.Wire.{wire, IsSendable}
use crypt_fs.Server.{Options, new_options, ServerConn, wants_password}
use crypt_fs.Server.Locked.{wrap_conn}
use crypt_fs.Client.{Client, Dialer, new_client}
use crypt_fs.System.{told, Seen, put-Seen}
use crypt_fs.Storage.{Store, IsMap}
use crypt_fs.Storage.InMemory.{in_memory_store, in_memory_store-IsMap}
use crypt_fs.Storage.Versioned.{new_versioned_wrapper}
use crypt_fs.Storage.Versioned.Refinement.{Entries, Refines, put_entry, wrapper_put-Refines}
use crypt_fs.Node.Metadata.{Metadata}
use crypt_fs.Node.Metadata.Format.{metadata_bytes}
use crypt_fs.Node.Metadata.RoundTrip.{IsStored}
use crypt_fs.Node.File.{ok}
use crypt_fs.Node.Heap.{TreeNode, new_node, invalidate_cache}
use crypt_fs.Node.Tree.{Tree}
use crypt_fs.Node.Tree.Entries.{entry}
use crypt_fs.Node.Reload.{reload_if_needed}
use crypt_fs.Node.Reload.Merge.{IsSeparate}
use crypt_fs.Node.Reload.Returns.{IsAlive}
use crypt_fs.Node.Reload.Coherence.{IsClosed, Reloaded}
use crypt_fs.Node.Reload.Known.{leaf, known_lem}

abbrev pub plain : Bytes → Bytes
plain k = k

abbrev pub memory : Store
memory = in_memory_store plain

abbrev pub memory-IsMap : IsMap memory
memory-IsMap = in_memory_store-IsMap plain

abbrev pub no_entries : Entries
no_entries k = none

pub empty-Refines : Refines memory memory-IsMap [] no_entries
unfolding in_memory_store-IsMap lookup
empty-Refines = record { shown = λ k. refl; bounded = λ k. tt }

abbrev key_a : Bytes
key_a = replicate {A = ℕ} 20 1

-- What the other client has saved: a directory with one child.
abbrev pub saved : Metadata
saved = record {
  user = 1;
  group = 2;
  mode = 0x41ed;
  time = 3;
  content_key = [];
  xattrs = [];
  children = (b'x' ∷ [], replicate {A = ℕ} 20 2) ∷ [];
}

pub saved-IsStored : IsStored saved
unfolding lookup
saved-IsStored = record {
  serializable = record {
    content_key = omega arith;
    xattrs = tt;
    children = (omega arith, omega arith, tt);
    keys = (refl, tt);
  };
  user = omega arith;
  group = omega arith;
  mode = omega arith;
  time = omega arith;
  count = omega arith;
  distinct_xattrs = tt;
  distinct_children = (refl, tt);
  directory = inl (ground arith);
}

put_saved :
    (st : memory.State) × Refines memory memory-IsMap st
      (put_entry 5 key_a (metadata_bytes saved) no_entries)
put_saved =
    let (st, done, refines) =
      wrapper_put-Refines memory memory-IsMap 5 key_a (metadata_bytes saved) [] no_entries
        (omega arith) empty-Refines in
    (st, refines)

abbrev saved_file : Metadata
saved_file = record saved { mode = 0x81b6; children = [] }

saved_file-IsStored : IsStored saved_file
saved_file-IsStored = record {
  serializable = record { content_key = omega arith; xattrs = tt; children = tt; keys = tt };
  user = omega arith;
  group = omega arith;
  mode = omega arith;
  time = omega arith;
  count = omega arith;
  distinct_xattrs = tt;
  distinct_children = tt;
  directory = inr refl;
}

put_file :
    (st : memory.State) × Refines memory memory-IsMap st
      (put_entry 5 key_a (metadata_bytes saved_file) no_entries)
put_file =
    let (st, done, refines) =
      wrapper_put-Refines memory memory-IsMap 5 key_a (metadata_bytes saved_file) [] no_entries
        (omega arith) empty-Refines in
    (st, refines)

-- The client's own view: a directory with another child.
abbrev old_directory : TreeNode
old_directory = record (new_node key_a [] 0x41ed 0) {
  nil_links = false;
  links = (b'y' ∷ [], 1) ∷ [];
}

abbrev old_child : TreeNode
old_child = new_node (replicate {A = ℕ} 20 3) (b'y' ∷ []) 0x81ed 0

abbrev a_world : Tree plain memory (new_versioned_wrapper memory)
a_world = record {
  cells = λ p. if p == 0 then some old_directory else if p == 1 then some old_child else none;
  next = 2;
  known = (key_a, 0) ∷ [];
  stores = ([], put_saved.0);
}

a_world-entry :
    (j : Bytes) (c : ℕ) → entry a_world 0 j ≡ some c → (bytes_eq (b'y' ∷ []) j ≡ true) × (c ≡ 1)
unfolding lookup
a_world-entry j c e = ground arith

abbrev a_world-IsAlive : IsAlive a_world 0
a_world-IsAlive = record {
  self = old_directory;
  at = refl;
  map = refl;
  children = λ j c e. let (same, one) = a_world-entry j c e in rw one (old_child, refl);
}

a_world-IsClosed : IsClosed a_world 0
a_world-IsClosed = record {
  node = omega arith;
  children = λ j c e. let (same, one) = a_world-entry j c e in omega (arith, one);
}

a_world-IsSeparate : IsSeparate a_world 0
a_world-IsSeparate = record {
  apart = λ i j r hi hj.
      let (yi, one) = a_world-entry i r hi in
      let (yj, one') = a_world-entry j r hj in
      (bytes_eq_iff i j).1 (sym ((bytes_eq_iff _ _).0 yi) ∙ (bytes_eq_iff _ _).0 yj);
}

-- A file, which another client has saved too.
abbrev old_file : TreeNode
old_file = new_node key_a [] 0x81a4 0

abbrev file_world : Tree plain memory (new_versioned_wrapper memory)
file_world = record {
  cells = λ p. if p == 0 then some old_file else none;
  next = 1;
  known = (key_a, 0) ∷ [];
  stores = ([], put_file.0);
}

known_lem_example :
    (v : Tree plain memory (new_versioned_wrapper memory)) × (w' : Tree plain memory
      (new_versioned_wrapper memory))
    × (invalidate_cache (new_put_message 0 key_a [] 5) file_world ≡ some v)
    × (reload_if_needed plain memory (new_versioned_wrapper memory) 0 v ≡ some (w', ok))
    × Reloaded plain memory memory memory-IsMap w' 0 5 saved_file
unfolding lookup bytes_eq
known_lem_example =
    known_lem plain memory memory memory-IsMap 0 0 5 key_a [] saved_file file_world
      (put_entry 5 key_a (metadata_bytes saved_file) no_entries) old_file (leaf refl refl refl) refl
      refl refl (omega arith) saved_file-IsStored put_file.1 refl

abbrev the_put : Message
the_put = record {
  kind = kind_put;
  tag = 9;
  key = key_a;
  value = metadata_bytes saved;
  version = 5;
}

abbrev no_auth : Options
no_auth = new_options []

abbrev putting : ServerConn Bytes
putting = wrap_conn 1 (record { stream = wire the_put ++ []; fault = eof }) []

abbrev listening : ServerConn Bytes
listening = wrap_conn 2 (record { stream = []; fault = eof }) []

abbrev receiving : Client Bytes
receiving =
    record (new_client [] [] (λ c. record { stream = wire (told the_put) ++ []; fault = eof })) {
      conn = some 0;
    }

abbrev no_dial : Dialer
no_dial = record {
  tls_dial = λ a. some (Encoding.io_error 1);
  net_dial = λ a. some (Encoding.io_error 1);
}

the_put-IsSendable : IsSendable the_put
unfolding metadata_bytes
the_put-IsSendable = Wire.put refl (omega arith) (omega arith) (omega arith) (omega arith)

put-Seen_example :
    Seen bytes_eq
      (λ k. [])
      memory
      memory-IsMap
      no_auth
      plain
      memory
      the_put
      saved
      putting
      listening
      []
      []
      []
      no_entries
      no_dial
      receiving
      0
      0
      (record { stream = []; fault = eof })
      a_world
unfolding new_options wrap_conn new_client lookup bytes_eq wants_password
put-Seen_example =
    put-Seen bytes_eq (λ k. []) memory memory-IsMap no_auth plain memory the_put saved [] [] eof eof
      putting listening [] [] [] no_entries no_dial receiving 0 0 a_world refl the_put-IsSendable
      refl refl saved-IsStored refl refl empty-Refines refl refl refl refl refl a_world-IsAlive
      a_world-IsClosed a_world-IsSeparate refl refl (omega arith)
