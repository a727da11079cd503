-- ===== src/Store/Properties/Roundtrip.antt =====
-- Reading the bytes of a map of properties gives the map.
use ttstringgolangiot.Base.{
  ℕ, zero, suc, ◌≤◌, ◌≡◌, ◌≢◌, refl, sym, ◌∙◌, none, some, List, [], ◌∷◌, ◌++◌, append-nil,
  append_assoc, arith, length, length-append, Dict, insert, ≟_ne,
}
use ttstringgolangiot.Store.Properties.{
  bytes_eq, name_value_separator, property_separator, message_properties_to_bytes, cut_at_byte,
  next_property, collect_properties, bytes_to_message_properties,
}

-- Does the byte not occur.
unfoldable pub Lacks : ℕ → List ℕ → Type 0
Lacks s [] = Unit
Lacks s (x ∷ xs) = (x ≢ s) × Lacks s xs

-- Is the key none of the map's.
unfoldable pub IsFresh : List ℕ → Dict (List ℕ) (List ℕ) → Type 0
IsFresh k [] = Unit
IsFresh k ((j, v) ∷ m) = (j ≢ k) × IsFresh k m

-- The keys of a Go map differ; here a key holds neither separator, and a value no end of a property.
unfoldable pub IsPrintable : Dict (List ℕ) (List ℕ) → Type 0
IsPrintable [] = Unit
IsPrintable ((k, v) ∷ m) =
    Lacks name_value_separator k
    × Lacks property_separator k
    × Lacks property_separator v
    × IsFresh k m
    × IsPrintable m

cut_at_byte_found :
    (s : ℕ) (xs ys : List ℕ) → Lacks s xs → cut_at_byte s (xs ++ (s ∷ ys)) ≡ some (xs, ys)
unfolding cut_at_byte Lacks
cut_at_byte_found s [] ys h = ground arith
cut_at_byte_found s (x ∷ xs) ys (n, h) = ground (arith, cut_at_byte_found s xs ys h)

Lacks-append : (s : ℕ) (xs ys : List ℕ) → Lacks s xs → Lacks s ys → Lacks s (xs ++ ys)
unfolding Lacks
Lacks-append s [] ys h k = k
Lacks-append s (x ∷ xs) ys (n, h) k = (n, Lacks-append s xs ys h k)

Lacks-entry :
    (k v : List ℕ)
    → Lacks property_separator k
    → Lacks property_separator v
    → Lacks property_separator (k ++ (name_value_separator ∷ v))
unfolding Lacks
Lacks-entry k v h h' = Lacks-append 2 k (1 ∷ v) h ((omega arith), h')

next_property_printed :
    (k v rest : List ℕ)
    → Lacks name_value_separator k
    → Lacks property_separator k
    → Lacks property_separator v
    → next_property (k ++ (name_value_separator ∷ v ++ (property_separator ∷ rest)))
      ≡ some ((k, v), rest)
unfolding next_property
next_property_printed k v rest a b c =
    let entry = cut_at_byte_found 2 (k ++ (1 ∷ v)) rest (Lacks-entry k v b c) in
    let entry' : cut_at_byte 2 (k ++ (1 ∷ v ++ (2 ∷ rest))) ≡ some (k ++ (1 ∷ v), rest) =
      rw (sym (append_assoc k (1 ∷ v) (2 ∷ rest))) entry in
    rw (next_property, entry', cut_at_byte_found 1 k v a) refl

next_property_nil : next_property [] ≡ none
unfolding next_property cut_at_byte
next_property_nil = refl

insert_fresh :
    (k v : List ℕ) (m : Dict (List ℕ) (List ℕ)) → IsFresh k m → insert k v m ≡ m ++ ((k, v) ∷ [])
unfolding IsFresh
insert_fresh k v [] h = refl
insert_fresh k v ((j, w) ∷ m) (n, h) = rw (≟_ne j k n, insert_fresh k v m h) refl

IsFresh-snoc :
    (k j v : List ℕ) (m : Dict (List ℕ) (List ℕ))
    → IsFresh k m
    → j ≢ k
    → IsFresh k (m ++ ((j, v) ∷ []))
unfolding IsFresh
IsFresh-snoc k j v [] h n = (n, tt)
IsFresh-snoc k j v ((i, w) ∷ m) (a, h) n = (a, IsFresh-snoc k j v m h n)

-- Is each key of the second map fresh in the first.
AllFresh : Dict (List ℕ) (List ℕ) → Dict (List ℕ) (List ℕ) → Type 0
AllFresh acc [] = Unit
AllFresh acc ((k, v) ∷ m) = IsFresh k acc × AllFresh acc m

AllFresh-nil : (m : Dict (List ℕ) (List ℕ)) → AllFresh [] m
unfolding AllFresh IsFresh
AllFresh-nil [] = tt
AllFresh-nil ((k, v) ∷ m) = (tt, AllFresh-nil m)

AllFresh-snoc :
    (acc : Dict (List ℕ) (List ℕ)) (j v : List ℕ) (m : Dict (List ℕ) (List ℕ))
    → AllFresh acc m
    → IsFresh j m
    → AllFresh (acc ++ ((j, v) ∷ [])) m
unfolding AllFresh IsFresh
AllFresh-snoc acc j v [] h f = tt
AllFresh-snoc acc j v ((k, w) ∷ m) (a, h) (n, f) =
    (IsFresh-snoc k j v acc a (λ e. n (sym e)), AllFresh-snoc acc j v m h f)

collect_properties_printed :
    (m acc : Dict (List ℕ) (List ℕ)) (fuel : ℕ)
    → length m ≤ fuel
    → IsPrintable m
    → AllFresh acc m
    → collect_properties fuel (message_properties_to_bytes m) acc ≡ acc ++ m
unfolding collect_properties IsPrintable AllFresh
collect_properties_printed [] acc zero h p f = sym (append-nil acc)
collect_properties_printed [] acc (suc fuel) h p f =
    rw (collect_properties, next_property_nil) (sym (append-nil acc))
collect_properties_printed ((k, v) ∷ m) acc zero h p f = absurd (omega arith)
collect_properties_printed ((k, v) ∷ m) acc (suc fuel) h (a, b, c, n, p) (f, fs) =
    let step = next_property_printed k v (message_properties_to_bytes m) a b c in
    let ih =
      collect_properties_printed m (acc ++ ((k, v) ∷ [])) fuel (omega arith) p
        (AllFresh-snoc acc k v m fs n) in
    rw (collect_properties, step, insert_fresh k v acc f) (ih ∙ append_assoc acc ((k, v) ∷ []) m)

length-message_properties_to_bytes :
    (m : Dict (List ℕ) (List ℕ)) → length m ≤ length (message_properties_to_bytes m)
length-message_properties_to_bytes [] = omega arith
length-message_properties_to_bytes ((k, v) ∷ m) = omega (
  arith,
  length-append k
      (name_value_separator ∷ v ++ (property_separator ∷ message_properties_to_bytes m)),
  length-append v (property_separator ∷ message_properties_to_bytes m),
  length-message_properties_to_bytes m,
)

-- When the keys differ, no key holds a separator and no value the end of a property, then the
-- properties read from the bytes of the map are the map, in the order in which it was written.
pub bytes_to_message_properties-message_properties_to_bytes :
    (m : Dict (List ℕ) (List ℕ))
    → IsPrintable m
    → bytes_to_message_properties (message_properties_to_bytes m) ≡ m
unfolding bytes_to_message_properties
bytes_to_message_properties-message_properties_to_bytes m p =
    collect_properties_printed m [] (length (message_properties_to_bytes m))
      (length-message_properties_to_bytes m) p (AllFresh-nil m)
