-- ===== src/Convert/Values/Panics.antt =====
-- When `getMarshallableValue` of pkg/convert/common.go panics.
use tracing_proxy.Base.{◌≡◌, refl, ◌⊎◌, inl, inr, ◌↔◌, Option, none, some, Option-cases}
use tracing_proxy.Convert.Values.{
  AnyValue, Items, Members, Entries, get_marshallable_value, marshal_items, marshal_members,
  write_entry, both, mapped, Marshallable, array, element, Encoder, get_value, encoded,
}

-- Somewhere inside there is a key without a value.
unfoldable mutual
  pub Misses : AnyValue → Type 0
  Misses (AnyValue.array_value items) = MissesItem items
  Misses (AnyValue.kvlist_value pairs) = MissesMember pairs
  Misses _ = ⊥

  pub MissesItem : Items → Type 0
  MissesItem Items.no_items = ⊥
  MissesItem (Items.item v rest) = Misses v ⊎ MissesItem rest

  pub MissesMember : Members → Type 0
  MissesMember Members.no_members = ⊥
  MissesMember (Members.member k v pairs) = Misses v ⊎ MissesMember pairs
  MissesMember (Members.missing k pairs) = Unit

pub mapped_iff : {A B : Type 0} (f : A → B) (o : Option A) → (mapped f o ≡ none) ↔ (o ≡ none)
mapped_iff f (some a) = (λ e. cc e, λ e. cc e)
mapped_iff f none = (λ e. refl, λ e. refl)

both_iff :
    {A B C : Type 0} (f : A → B → C) (a : Option A) (b : Option B)
    → (both f a b ≡ none) ↔ ((a ≡ none) ⊎ (b ≡ none))
both_iff f (some a) (some b) = (λ e. cc e, λ h. elim h [ inl e ↦ cc e | inr e ↦ cc e ])
both_iff f (some a) none = (λ e. inr refl, λ h. refl)
both_iff f none b = (λ e. inl refl, λ h. refl)

mutual
  unfolding get_marshallable_value Misses

  get_marshallable_value_iff : (v : AnyValue) → (get_marshallable_value v ≡ none) ↔ Misses v
  get_marshallable_value_iff AnyValue.unset = (λ e. cc e, λ h. absurd h)
  get_marshallable_value_iff (AnyValue.string_value s) = (λ e. cc e, λ h. absurd h)
  get_marshallable_value_iff (AnyValue.bool_value b) = (λ e. cc e, λ h. absurd h)
  get_marshallable_value_iff (AnyValue.double_value x) = (λ e. cc e, λ h. absurd h)
  get_marshallable_value_iff (AnyValue.int_value n) = (λ e. cc e, λ h. absurd h)
  get_marshallable_value_iff (AnyValue.bytes_value bs) = (λ e. cc e, λ h. absurd h)
  get_marshallable_value_iff (AnyValue.array_value items) =
      let (a, b) = mapped_iff array (marshal_items items) in
      let (c, d) = marshal_items_iff items in (λ e. c (a e), λ h. b (d h))
  get_marshallable_value_iff (AnyValue.kvlist_value pairs) =
      let (a, b) = mapped_iff Marshallable.object (marshal_members pairs Entries.empty) in
      let (c, d) = marshal_members_iff pairs Entries.empty in (λ e. c (a e), λ h. b (d h))

  marshal_items_iff : (items : Items) → (marshal_items items ≡ none) ↔ MissesItem items
  marshal_items_iff Items.no_items = (λ e. cc e, λ h. absurd h)
  marshal_items_iff (Items.item v rest) =
      let (a, b) = both_iff element (get_marshallable_value v) (marshal_items rest) in
      let (c, d) = get_marshallable_value_iff v in
      let (c', d') = marshal_items_iff rest in
      (
        λ e. elim (a e) [ inl x ↦ inl (c x) | inr x ↦ inr (c' x) ],
        λ h. b (elim h [ inl x ↦ inl (d x) | inr x ↦ inr (d' x) ]),
      )

  marshal_members_iff :
      (pairs : Members) (es : Entries) → (marshal_members pairs es ≡ none) ↔ MissesMember pairs
  marshal_members_iff Members.no_members es = (λ e. cc e, λ h. absurd h)
  marshal_members_iff (Members.missing k pairs) es = (λ e. tt, λ h. refl)
  marshal_members_iff (Members.member k v pairs) es =
      let (c, d) = get_marshallable_value_iff v in
      elim (Option-cases (get_marshallable_value v)) [
        | inl e ↦ rw e ((λ x. inl (c e), λ h. refl))
        | inr (m, e) ↦
            let (c', d') = marshal_members_iff pairs (write_entry k m es) in
            rw e (λ x. inr (c' x), λ h. elim h [ inl x ↦ absurd (cc (d x, e)) | inr x ↦ d' x ])
      ]

encoded_iff :
    (E : Encoder) (v : AnyValue) → (mapped (encoded E) (get_marshallable_value v) ≡ none) ↔ Misses v
encoded_iff E v =
    let (a, b) = mapped_iff (encoded E) (get_marshallable_value v) in
    let (c, d) = get_marshallable_value_iff v in (λ e. c (a e), λ h. b (d h))

-- panics
pub get_value_iff : (E : Encoder) (v : AnyValue) → (get_value E v ≡ none) ↔ Misses v
unfolding get_value Misses
get_value_iff E AnyValue.unset = (λ e. cc e, λ h. absurd h)
get_value_iff E (AnyValue.string_value s) = (λ e. cc e, λ h. absurd h)
get_value_iff E (AnyValue.bool_value b) = (λ e. cc e, λ h. absurd h)
get_value_iff E (AnyValue.double_value x) = (λ e. cc e, λ h. absurd h)
get_value_iff E (AnyValue.int_value n) = (λ e. cc e, λ h. absurd h)
get_value_iff E (AnyValue.bytes_value bs) = (λ e. cc e, λ h. absurd h)
get_value_iff E (AnyValue.array_value items) = encoded_iff E (AnyValue.array_value items)
get_value_iff E (AnyValue.kvlist_value pairs) = encoded_iff E (AnyValue.kvlist_value pairs)
