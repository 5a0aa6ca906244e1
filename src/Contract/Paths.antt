-- ===== src/Contract/Paths.antt =====
-- What net/url and ServeMux leave as it is: a path of unreserved characters, in segments that are not
-- empty.
use quorum_kv.Prelude.{
  String, ◌≡◌, Bool, true, false, ◌&&◌, ◌||◌, not, Option, some, if◌then◌else◌, ℕ, leb, nat_eq,
}
use Prim.Native.Char.{code}
use Prim.Native.String.{◌++◌}

-- A letter, a digit, '-', '_' or '~'. A point is left out, since ServeMux resolves "." and "..".
unfoldable pub is_unreserved : ℕ → Bool
is_unreserved c =
    leb b'a' c && leb c b'z'
    || leb b'A' c && leb c b'Z'
    || leb b'0' c && leb c b'9'
    || nat_eq c b'-'
    || nat_eq c b'_'
    || nat_eq c b'~'

-- Segments of such characters with a '/' between them; `fresh` says that a segment has to begin.
unfoldable pub is_plain_from : Bool → String → Bool
unfolding is_unreserved
is_plain_from fresh String.[] = not fresh
is_plain_from fresh (String.◌∷◌ c s) =
    let next = is_plain_from true s in
    let rest = is_plain_from false s in
    if nat_eq (code c) b'/' then not fresh && next else is_unreserved (code c) && rest

abbrev pub is_plain : String → Bool
is_plain = is_plain_from true

-- net/url reads of a plain key under the address of the node, and of a cas on it, the path as it is.
pub record ReadsPlain (url_path : String → Option String) (address : String) : Type 0 where
  pub key :
      (k : String) → is_plain k ≡ true → url_path (address ++ "/kv/" ++ k) ≡ some ("/kv/" ++ k)
  pub cas :
      (k : String)
      → is_plain k ≡ true
      → url_path ((address ++ "/kv/" ++ k) ++ "/cas") ≡ some ("/kv/" ++ (k ++ "/cas"))
