-- ===== src/Json/Contents.antt =====
-- What json.Unmarshal decodes does not depend on the raw bytes of an object's members.
use xyllo.Base.{
  Bytes, ◌==◌, Option, none, some, [], Assoc, bytes_eq, lookup, insert, lookup-insert, ◌≡◌, refl,
  Bool-cases, inl, inr,
}
use xyllo.Json.{Number, Value, null, bool, num, str, arr, obj, Items, nil, cons, Fields, end, field}
use xyllo.Json.Objects.{overflows, items_overflow, fields_overflow, members}
use xyllo.Json.Rewriting.{content, contents, member_contents}

mutual
  unfolding overflows items_overflow fields_overflow content contents member_contents

  pub overflows-content : (v : Value) → overflows (content v) ≡ overflows v
  overflows-content null = refl
  overflows-content (bool b) = refl
  overflows-content (num n) = refl
  overflows-content (str s) = refl
  overflows-content (arr vs) = items_overflow-contents vs
  overflows-content (obj fs) = fields_overflow-contents fs

  items_overflow-contents : (vs : Items) → items_overflow (contents vs) ≡ items_overflow vs
  items_overflow-contents nil = refl
  items_overflow-contents (cons v vs) = rw (overflows-content v, items_overflow-contents vs) refl

  pub fields_overflow-contents :
      (fs : Fields) → fields_overflow (member_contents fs) ≡ fields_overflow fs
  fields_overflow-contents end = refl
  fields_overflow-contents (field key v raw fs) =
      rw (overflows-content v, fields_overflow-contents fs) refl

abbrev pub content_of : Option Value → Option Value
content_of none = none
content_of (some v) = some (content v)

insert-content :
    (key : Bytes) (v : Value) (m m' : Assoc Bytes Value)
    → ((k : Bytes) → content_of (lookup k m) ≡ lookup k m')
    → (k : Bytes) → content_of (lookup k (insert key v m)) ≡ lookup k (insert key (content v) m')
insert-content key v m m' h k =
    rw (lookup-insert key k v m, lookup-insert key k (content v) m')
      (elim (Bool-cases (key == k)) [ inl y ↦ rw y refl | inr n ↦ rw n (h k) ])

members-alike :
    (fs : Fields) (m m' : Assoc Bytes Value)
    → ((k : Bytes) → content_of (lookup k m) ≡ lookup k m')
    → (k : Bytes)
    → content_of (lookup k (members fs m)) ≡ lookup k (members (member_contents fs) m')
unfolding members member_contents
members-alike end m m' h k = h k
members-alike (field key v raw fs) m m' h k =
    members-alike fs (insert key v m) (insert key (content v) m') (insert-content key v m m' h) k

-- The map of an object's members, up to the raw bytes.
pub members-content :
    (fs : Fields) (k : Bytes)
    → content_of (lookup k (members fs [])) ≡ lookup k (members (member_contents fs) [])
unfolding lookup
members-content fs k = members-alike fs [] [] (λ j. refl) k

-- A string or a number is its own content, and nothing else has it.
pub content_of-str : (o : Option Value) (s : Bytes) → content_of o ≡ some (str s) → o ≡ some (str s)
unfolding content
content_of-str none s e = absurd cc
content_of-str (some null) s e = absurd cc
content_of-str (some (bool b)) s e = absurd cc
content_of-str (some (num n)) s e = absurd cc
content_of-str (some (str t)) s e = e
content_of-str (some (arr vs)) s e = absurd cc
content_of-str (some (obj fs)) s e = absurd cc

pub content_of-num :
    (o : Option Value) (n : Number) → content_of o ≡ some (num n) → o ≡ some (num n)
unfolding content
content_of-num none n e = absurd cc
content_of-num (some null) n e = absurd cc
content_of-num (some (bool b)) n e = absurd cc
content_of-num (some (num k)) n e = e
content_of-num (some (str t)) n e = absurd cc
content_of-num (some (arr vs)) n e = absurd cc
content_of-num (some (obj fs)) n e = absurd cc
