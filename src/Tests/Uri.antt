-- ===== src/Tests/Uri.antt =====
-- Runs of the URIs of stores, of the bitcask store, and of the text of messages.
use crypt_fs.Prelude.{◌≡◌, inl, inr, refl, arith, none, some, [], ◌∷◌, ◌++◌, Bytes}
use crypt_fs.Prelude.Text.{codes, hex, hex_digit}
use crypt_fs.Message.{Message, kind_put}
use crypt_fs.Message.Text.{string, repr, scan, decimal_digits}
use crypt_fs.Message.Text.Bounds.{IsBrief, string_lem}
use crypt_fs.Storage.{failed}
use crypt_fs.Storage.Bitcask.{Database, other, bitcask_store, bitcask_put, wrapper-unreadable}
use crypt_fs.Storage.Versioned.{put_uint64, wrapper_put, wrapper_get}
use crypt_fs.Storage.Uri.{
  to_lower, at_separator, split, parse_store_uri, new_store, new_store_of, in_bitcask,
}

-- A type in capitals is taken too.
capitals : new_store (λ path. none) (codes "BitCask://a") ≡ inr (in_bitcask (codes "a"))
unfolding new_store parse_store_uri split at_separator to_lower new_store_of
capitals = refl

-- Three parts are refused.
three_parts : parse_store_uri (codes "a://b://c") ≡ inl (failed (codes "invalid uri: a://b://c"))
unfolding parse_store_uri split at_separator
three_parts = refl

-- A database that cannot read.
abbrev broken : Database
broken = record {
  State = Bytes;
  put = λ key value st. (value, none);
  get = λ key st. (st, none, some (other (codes "i/o")));
}

wrapper-unreadable_example :
    (wrapper_put (bitcask_store broken (λ k. k)) 0 (codes "k") (codes "v") (codes "old")
      ≡ some (bitcask_put broken (λ k. k) (codes "k") (put_uint64 0 ++ codes "v") (codes "old")))
    × (wrapper_get (bitcask_store broken (λ k. k)) (codes "k") (codes "old") ≡ none)
wrapper-unreadable_example =
    wrapper-unreadable broken (λ k. k) 0 (codes "k") (codes "v") (codes "i/o") (codes "old")
      (codes "old") refl

abbrev a_put : Message
a_put = record {
  kind = kind_put;
  tag = 43;
  key = 0 ∷ [];
  value = codes "a value that is long";
  version = 666;
}

put_text : string a_put ≡ some (codes "kind=1 tag=43 key=00 value=a value ... version=666")
unfolding string repr scan decimal_digits hex hex_digit
put_text = refl

string_lem_example : (text : Bytes) × (string a_put ≡ some text) × IsBrief 83 text
string_lem_example = string_lem a_put (omega arith) (omega arith) (omega arith)
