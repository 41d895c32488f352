-- ===== src/Storage/Names/Rules.antt =====
-- internal/storage/storage.go: IsValidBucketName and isIPAddress against the naming rules.
use home_store.Prelude.{
  ℕ, suc, ◌≤◌, ◌≡◌, refl, sym, ◌∙◌, ap, ◌≢◌, ◌↔◌, Bool, true, false, List, [], ◌∷◌, ◌++◌, arith,
  All, all, all_iff, length, length-append,
}
use home_store.Prelude.Bytes.{Bytes, join, lacks, split, join-split, split-lacks, split-append}
use home_store.Storage.Names.{
  is_digit, is_octet, is_ip_address, has_double_dot, all_name_chars, is_valid_bucket_name,
}
use home_store.Storage.Names.Shape.{
  IsAlnum, IsNameByte, has_double_dot-append, no_double_dot, all_name_chars-All,
  all_name_chars-first, all_name_chars-last, all_name_chars_of,
}

-- One to three digits.
pub record IsOctet (s : Bytes) : Type 0 where
  pub some_digits : 1 ≤ length s
  pub few_digits : length s ≤ 3
  pub digits : All (λ c. is_digit c ≡ true) s

-- Four groups of one to three digits, with dots between them.
pub record IsIpAddress (name : Bytes) : Type 0 where
  pub a : Bytes
  pub b : Bytes
  pub c : Bytes
  pub d : Bytes
  pub dotted : name ≡ a ++ (b'.' ∷ (b ++ (b'.' ∷ (c ++ (b'.' ∷ d)))))
  pub octets : IsOctet a × IsOctet b × IsOctet c × IsOctet d

is_octet-IsOctet : (s : Bytes) → is_octet s ≡ true → IsOctet s
unfolding is_octet
is_octet-IsOctet s h = record {
  some_digits = ground arith;
  few_digits = ground arith;
  digits = (all_iff is_digit s).0 (ground arith);
}

IsOctet-is_octet : (s : Bytes) → IsOctet s → is_octet s ≡ true
unfolding is_octet
IsOctet-is_octet s o = ground (arith, (all_iff is_digit s).1 o.digits, o.some_digits, o.few_digits)

digits-lack_dot : (s : Bytes) → All (λ c. is_digit c ≡ true) s → lacks b'.' s ≡ true
unfolding is_digit
digits-lack_dot [] h = refl
digits-lack_dot (c ∷ s) h = ground (arith, digits-lack_dot s h.1)

four_parts :
    (parts : List Bytes) → length parts ≡ 4 → (a b c d : Bytes) × (parts ≡ a ∷ b ∷ c ∷ d ∷ [])
four_parts [] h = absurd (omega arith)
four_parts (a ∷ []) h = absurd (omega arith)
four_parts (a ∷ b ∷ []) h = absurd (omega arith)
four_parts (a ∷ b ∷ c ∷ []) h = absurd (omega arith)
four_parts (a ∷ b ∷ c ∷ d ∷ []) h = (a, b, c, d, refl)
four_parts (a ∷ b ∷ c ∷ d ∷ e ∷ r) h = absurd (omega arith)

ip_parts :
    (name : Bytes)
    → is_ip_address name ≡ true
    → (length (split b'.' name) ≡ 4) × (all is_octet (split b'.' name) ≡ true)
unfolding is_ip_address
ip_parts name h = (ground arith, ground arith)

is_ip_address_of :
    (name a b c d : Bytes)
    → split b'.' name ≡ a ∷ b ∷ c ∷ d ∷ []
    → is_octet a ≡ true
    → is_octet b ≡ true
    → is_octet c ≡ true
    → is_octet d ≡ true
    → is_ip_address name ≡ true
unfolding is_ip_address
is_ip_address_of name a b c d e ha hb hc hd = ground (arith, e)

is_ip_address-IsIpAddress : (name : Bytes) → is_ip_address name ≡ true → IsIpAddress name
is_ip_address-IsIpAddress name h =
    let (count, octets) = ip_parts name h in
    let (a, b, c, d, e) = four_parts (split b'.' name) count in
    let o = rw e at octets in
    record {
      a = a;
      b = b;
      c = c;
      d = d;
      dotted = sym (join-split b'.' name) ∙ ap (join b'.') e;
      octets = (
        is_octet-IsOctet a (ground arith),
        is_octet-IsOctet b (ground arith),
        is_octet-IsOctet c (ground arith),
        is_octet-IsOctet d (ground arith),
      );
    }

split-dotted :
    (a b c d : Bytes)
    → IsOctet a × IsOctet b × IsOctet c × IsOctet d
    → split b'.' (a ++ (b'.' ∷ (b ++ (b'.' ∷ (c ++ (b'.' ∷ d)))))) ≡ a ∷ b ∷ c ∷ d ∷ []
split-dotted a b c d (oa, ob, oc, od) =
    split-append b'.' a _ (digits-lack_dot a oa.digits)
    ∙ ap (λ r. a ∷ r)
        (split-append b'.' b _ (digits-lack_dot b ob.digits)
          ∙ ap (λ r. b ∷ r)
              (split-append b'.' c d (digits-lack_dot c oc.digits)
                ∙ ap (λ r. c ∷ r) (split-lacks b'.' d (digits-lack_dot d od.digits))))

IsIpAddress-is_ip_address : (name : Bytes) → IsIpAddress name → is_ip_address name ≡ true
IsIpAddress-is_ip_address name i =
    is_ip_address_of name i.a i.b i.c i.d
      (ap (split b'.') i.dotted ∙ split-dotted i.a i.b i.c i.d i.octets)
      (IsOctet-is_octet i.a i.octets.0) (IsOctet-is_octet i.b i.octets.1)
      (IsOctet-is_octet i.c i.octets.2) (IsOctet-is_octet i.d i.octets.3)

-- isIPAddress holds exactly of four groups of one to three digits with dots between them.
pub is_ip_address_iff : (name : Bytes) → (is_ip_address name ≡ true) ↔ IsIpAddress name
is_ip_address_iff name = (is_ip_address-IsIpAddress name, IsIpAddress-is_ip_address name)

-- The naming rules: 3 to 63 bytes; letters, digits, dashes and dots; a letter or a digit at both
-- ends; no two dots in a row; and not the form of an IP address.
pub record IsBucketName (name : Bytes) : Type 0 where
  pub long_enough : 3 ≤ length name
  pub short_enough : length name ≤ 63
  pub name_bytes : All IsNameByte name
  pub first_alnum : (c : ℕ) (s : Bytes) → name ≡ c ∷ s → IsAlnum c
  pub last_alnum : (s : Bytes) (c : ℕ) → name ≡ s ++ c ∷ [] → IsAlnum c
  pub no_dots : (a b : Bytes) → name ≢ a ++ b'.' ∷ b'.' ∷ b
  pub no_ip : ¬ IsIpAddress name

valid_parts :
    (name : Bytes)
    → is_valid_bucket_name name ≡ true
    → (3 ≤ length name)
      × (length name ≤ 63)
      × (has_double_dot name ≡ false)
      × (is_ip_address name ≡ false)
      × (all_name_chars (length name) 0 name ≡ true)
unfolding is_valid_bucket_name
valid_parts name h = (ground arith, ground arith, ground arith, ground arith, ground arith)

valid_of :
    (name : Bytes)
    → 3 ≤ length name
    → length name ≤ 63
    → has_double_dot name ≡ false
    → is_ip_address name ≡ false
    → all_name_chars (length name) 0 name ≡ true
    → is_valid_bucket_name name ≡ true
unfolding is_valid_bucket_name
valid_of name = ground arith

chars_of_rules : (name : Bytes) → IsBucketName name → all_name_chars (length name) 0 name ≡ true
unfolding all_name_chars
chars_of_rules [] r = refl
chars_of_rules (c ∷ s) r = ground (
  arith,
  r.first_alnum c s refl,
  all_name_chars_of (suc (length s)) 1 s (omega arith) (omega arith) (r.name_bytes).1
      (λ t x e. r.last_alnum (c ∷ t) x (ap (λ u. c ∷ u) e)),
)

first_of_chars :
    (name : Bytes)
    → all_name_chars (length name) 0 name ≡ true
    → (c : ℕ) (s : Bytes) → name ≡ c ∷ s
    → IsAlnum c
first_of_chars name h c s e = all_name_chars-first _ c s (rw e at h)

last_of_chars :
    (name : Bytes)
    → all_name_chars (length name) 0 name ≡ true
    → (s : Bytes) (c : ℕ) → name ≡ s ++ c ∷ []
    → IsAlnum c
last_of_chars name h s c e =
    all_name_chars-last _ 0 s c (omega (arith, length-append s (c ∷ []))) (rw e at h)

valid-IsBucketName : (name : Bytes) → is_valid_bucket_name name ≡ true → IsBucketName name
valid-IsBucketName name h =
    let (long, short, dots, ip, chars) = valid_parts name h in
    record {
      long_enough = long;
      short_enough = short;
      name_bytes = all_name_chars-All (length name) 0 name chars;
      first_alnum = first_of_chars name chars;
      last_alnum = last_of_chars name chars;
      no_dots = λ a b e. cc (dots, ap has_double_dot e, has_double_dot-append a b);
      no_ip = λ i. cc (ip, (is_ip_address_iff name).1 i);
    }

not_true : (b : Bool) → (b ≡ true → ⊥) → b ≡ false
not_true true h = absurd (h refl)
not_true false h = refl

-- IsValidBucketName holds exactly of the names that keep the naming rules.
pub is_valid_bucket_name_iff :
    (name : Bytes) → (is_valid_bucket_name name ≡ true) ↔ IsBucketName name
is_valid_bucket_name_iff name = (
  valid-IsBucketName name,
  λ r.
      valid_of name r.long_enough r.short_enough (no_double_dot name r.no_dots)
        (not_true _ (λ h. r.no_ip ((is_ip_address_iff name).0 h))) (chars_of_rules name r),
)
