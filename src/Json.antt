-- ===== src/Json.antt =====
-- encoding/json as the source uses it: documents as trees, the structs and the map that are written
-- to and read from them, and Go's rules for reading a document into a struct. How a tree is spelled
-- in bytes is the record `JsonText`.
pub mod Decode
pub mod Postfix
use quorum_kv.Prelude.{ℕ, String, ◌≡◌, Bool, List, Try, ok, err}
use quorum_kv.Prelude.Int.{ℤ}

mutual
  pub data Json : Type 0 where
    null : Json
    bool : Bool → Json
    num : ℤ → Json
    frac : String → Json  -- a number that is no integer, as it is spelled
    str : String → Json
    arr : Items → Json
    obj : Fields → Json

  pub data Items : Type 0 where
    nil : Items
    cons : Json → Items → Items

  pub data Fields : Type 0 where
    end : Fields
    field : String → Json → Fields → Fields

-- `UnmarshalTypeError` names the field that did not fit; the zero text stands for the whole value.
pub data JsonError : Type 0 where
  syntax : String → JsonError
  mismatch : String → JsonError

-- A `[]byte`: texts are taken to be valid UTF-8, so the bytes are those of a text.
abbrev pub Bytes : Type 0
Bytes = String

-- How documents are spelled: `print` is what Marshal writes for a tree, `parse` what Unmarshal reads
-- before it fills a value, with the message of its syntax error. Of the spelling the code relies only
-- on this: what was printed is read back.
pub record JsonText : Type 0 where
  pub print : Json → Bytes
  pub parse : Bytes → Try String Json
  pub parse-print : (j : Json) → parse (print j) ≡ ok j
  pub first : Bytes → Try String Json
  pub first-print : (j : Json) → first (print j) ≡ ok j
  pub error_text : JsonError → String
