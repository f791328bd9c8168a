-- ===== src/Protocol/Sample.antt =====
-- A concrete printer and parser of JSON values, as prefix code, for the tests: it loses nothing.
use cloud_storage_system.Base.{
  ℕ, zero, suc, ◌+◌, ◌≤◌, ◌≡◌, refl, ap, Option, none, some, [], ◌∷◌, ◌++◌, arith, ◌>>=◌,
}
use cloud_storage_system.Base.Int.{ℤ, pos, negsuc}
use cloud_storage_system.Base.Lists.{length, take, drop}
use cloud_storage_system.Base.Text.{Text}
use cloud_storage_system.Protocol.Json.{
  Json, null, integer, string, array, object, Items, nil, item, Fields, end, field, Codec,
  IsLossless,
}

print_text : Text → Text → Text
print_text t r = length t ∷ (t ++ r)

mutual
  print : Json → Text → Text
  print null r = 0 ∷ r
  print (integer (pos n)) r = 1 ∷ n ∷ r
  print (integer (negsuc n)) r = 2 ∷ n ∷ r
  print (string t) r = 3 ∷ print_text t r
  print (array xs) r = 4 ∷ print_items xs r
  print (object fs) r = 5 ∷ print_fields fs r

  print_items : Items → Text → Text
  print_items nil r = 0 ∷ r
  print_items (item x xs) r = 1 ∷ print x (print_items xs r)

  print_fields : Fields → Text → Text
  print_fields end r = 0 ∷ r
  print_fields (field k v fs) r = 1 ∷ print_text k (print v (print_fields fs r))

mutual
  size : Json → ℕ
  size null = 1
  size (integer n) = 1
  size (string t) = 1
  size (array xs) = suc (size_items xs)
  size (object fs) = suc (size_fields fs)

  size_items : Items → ℕ
  size_items nil = 1
  size_items (item x xs) = suc (size x + size_items xs)

  size_fields : Fields → ℕ
  size_fields end = 1
  size_fields (field k v fs) = suc (size v + size_fields fs)

read_text : Text → Option (Text × Text)
read_text [] = none
read_text (n ∷ r) = some (take n r, drop n r)

read_number : (ℕ → ℤ) → Text → Option (Json × Text)
read_number f [] = none
read_number f (n ∷ r) = some (integer (f n), r)

read_string : Text → Option (Json × Text)
unfolding read_text
read_string r = read_text r >>= λ (t, r'). some (string t, r')

mutual
  unfolding read_number read_string read_text

  read : ℕ → Text → Option (Json × Text)
  read zero t = none
  read (suc f) [] = none
  read (suc f) (zero ∷ r) = some (null, r)
  read (suc f) (suc zero ∷ r) = read_number pos r
  read (suc f) (suc (suc zero) ∷ r) = read_number negsuc r
  read (suc f) (suc (suc (suc zero)) ∷ r) = read_string r
  read (suc f) (suc (suc (suc (suc zero))) ∷ r) = read_items f r >>= λ (xs, r'). some (array xs, r')
  read (suc f) (suc (suc (suc (suc (suc _)))) ∷ r) =
      read_fields f r >>= λ (fs, r'). some (object fs, r')

  read_items : ℕ → Text → Option (Items × Text)
  read_items zero t = none
  read_items (suc f) [] = none
  read_items (suc f) (zero ∷ r) = some (nil, r)
  read_items (suc f) (suc _ ∷ r) =
      read f r >>= λ (x, r'). read_items f r' >>= λ (xs, r''). some (item x xs, r'')

  read_fields : ℕ → Text → Option (Fields × Text)
  read_fields zero t = none
  read_fields (suc f) [] = none
  read_fields (suc f) (zero ∷ r) = some (end, r)
  read_fields (suc f) (suc _ ∷ r) = read_text r >>= λ (k, r').
      read f r' >>= λ (v, r''). read_fields f r'' >>= λ (fs, r'''). some (field k v fs, r''')

take-length : (t r : Text) → take (length t) (t ++ r) ≡ t
take-length [] r = refl
take-length (x ∷ t) r = ap (x ∷◌) (take-length t r)

drop-length : (t r : Text) → drop (length t) (t ++ r) ≡ r
drop-length [] r = refl
drop-length (x ∷ t) r = drop-length t r

read_text-print_text : (t r : Text) → read_text (print_text t r) ≡ some (t, r)
unfolding read_text print_text
read_text-print_text t r = rw (take-length t r, drop-length t r) refl

size_pos : (j : Json) → 1 ≤ size j
unfolding size
size_pos null = omega arith
size_pos (integer n) = omega arith
size_pos (string t) = omega arith
size_pos (array xs) = omega arith
size_pos (object fs) = omega arith

size_items_pos : (xs : Items) → 1 ≤ size_items xs
unfolding size_items
size_items_pos nil = omega arith
size_items_pos (item x xs) = omega arith

size_fields_pos : (fs : Fields) → 1 ≤ size_fields fs
unfolding size_fields
size_fields_pos end = omega arith
size_fields_pos (field k v fs) = omega arith

mutual
  unfolding print print_items print_fields size size_items size_fields read read_items read_fields
      read_string read_number

  read-print : (j : Json) (f : ℕ) (r : Text) → size j ≤ f → read f (print j r) ≡ some (j, r)
  read-print j zero r h = absurd (omega (arith, size_pos j))
  read-print null (suc f) r h = refl
  read-print (integer (pos n)) (suc f) r h = refl
  read-print (integer (negsuc n)) (suc f) r h = refl
  read-print (string t) (suc f) r h = rw (read_text-print_text t r) refl
  read-print (array xs) (suc f) r h = rw (read_items-print xs f r (omega arith)) refl
  read-print (object fs) (suc f) r h = rw (read_fields-print fs f r (omega arith)) refl

  read_items-print :
      (xs : Items) (f : ℕ) (r : Text)
      → size_items xs ≤ f
      → read_items f (print_items xs r) ≡ some (xs, r)
  read_items-print xs zero r h = absurd (omega (arith, size_items_pos xs))
  read_items-print nil (suc f) r h = refl
  read_items-print (item x xs) (suc f) r h =
      rw (read-print x f (print_items xs r) (omega arith))
        (rw (read_items-print xs f r (omega arith)) refl)

  read_fields-print :
      (fs : Fields) (f : ℕ) (r : Text)
      → size_fields fs ≤ f
      → read_fields f (print_fields fs r) ≡ some (fs, r)
  read_fields-print fs zero r h = absurd (omega (arith, size_fields_pos fs))
  read_fields-print end (suc f) r h = refl
  read_fields-print (field k v fs) (suc f) r h =
      rw (read_text-print_text k (print v (print_fields fs r))) (
        rw (read-print v f (print_fields fs r) (omega arith))
          (rw (read_fields-print fs f r (omega arith)) refl))

sample_parse : Text → Option Json
unfolding read
sample_parse [] = none
sample_parse (f ∷ t) = read f t >>= λ r. some r.0

pub sample_codec : Codec
unfolding sample_parse print size
sample_codec = record { dump = λ j. size j ∷ print j []; parse = sample_parse }

pub sample_codec-IsLossless : IsLossless sample_codec
unfolding sample_parse sample_codec
sample_codec-IsLossless = record {
  reads_back = λ j. rw (read-print j (size j) [] (omega arith)) refl;
  empty_fails = refl;
}
