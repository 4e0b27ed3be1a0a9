-- ===== src/Occupancy/Invariant.antt =====
-- The invariant of the serializer of crates/store/src/resource.rs: every resource is at rest.
pub mod Release
pub mod Process
pub mod Acquire
use code_space.Prelude.{
  ℕ, ◌≡◌, refl, Bool, true, false, List, [], ◌∷◌, arith, ◌==◌, ==_iff, if◌then◌else◌, any,
  Bool-cases, inl, inr, subst, sym,
}
use code_space.Occupancy.Types.{Resource, ResourceSerializer, Oneshot, resource_keyed}
use code_space.Occupancy.Serializer.{wake, wake_all}
use code_space.Occupancy.Slot.{Slot, slot}
use code_space.Occupancy.Wake.{IsSound, IsSettled, wake-IsSettled, slot-wake_ne}

module _ {Tx World : Type 0} where
  pub record IsWellFormed (s : ResourceSerializer Tx World) : Type 0 where
    pub settled : (r : Resource) → IsSettled r (slot r s)

module _ (o : Oneshot) where
  open o use {Tx, World}

  -- A wake settles its resource and leaves the others as they are.
  pub wake_at :
      (r j : Resource) (s : ResourceSerializer Tx World)
      → IsSound r (slot r s)
      → ((r == j) ≡ false → IsSettled j (slot j s))
      → IsSettled j (slot j (wake o r s))
  wake_at r j s sound other = elim (Bool-cases (r == j)) [
    | inl same ↦
        subst (λ k. IsSettled k (slot k (wake o r s))) ((==_iff r j).0 same)
          (wake-IsSettled o r s sound)
    | inr apart ↦ rw (slot-wake_ne o r j s apart) (other apart)
  ]

  pub wake-IsWellFormed :
      (r : Resource) (s : ResourceSerializer Tx World)
      → IsSound r (slot r s)
      → ((j : Resource) → (r == j) ≡ false → IsSettled j (slot j s))
      → IsWellFormed (wake o r s)
  wake-IsWellFormed r s sound other = record { settled = λ j. wake_at r j s sound (other j) }

  -- After waking a list of resources, all are at rest if the others were.
  pub wake_all-IsWellFormed :
      (rs : List Resource) (s : ResourceSerializer Tx World)
      → ((j : Resource) → IsSound j (slot j s))
      → ((j : Resource) → any (λ r. r == j) rs ≡ false → IsSettled j (slot j s))
      → IsWellFormed (wake_all o rs s)
  unfolding wake_all any
  wake_all-IsWellFormed [] s sound other = record { settled = λ j. other j refl }
  wake_all-IsWellFormed (r ∷ rs) s sound other =
      wake_all-IsWellFormed rs (wake o r s) (λ j. sound_after j)
        (λ j h. wake_at r j s (sound r) (λ apart. other j (ground arith)))
    where
      sound_after : (j : Resource) → IsSound j (slot j (wake o r s))
      sound_after j = elim (Bool-cases (r == j)) [
        | inl same ↦ (wake_at r j s (sound r) (λ apart. absurd (ground arith))).sound
        | inr apart ↦ rw (slot-wake_ne o r j s apart) (sound j)
      ]
