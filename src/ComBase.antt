-- ===== src/ComBase.antt =====
-- The base classes of ara::com: include/ara/com/types.h, include/ara/com/proxy_base.h and
-- include/ara/com/skeleton_base.h. The methods that a subclass may replace are those of the base.
use my_auto_sar_ap.Prelude.{
  String, Bool, true, false, not, ◌≡◌, ◌↔◌, refl, arith, if◌then◌else◌, ◌==◌, String_eq,
}

pub record InstanceIdentifier : Type 0 where
  pub value : String

unfoldable pub identifier_eq : InstanceIdentifier → InstanceIdentifier → Bool
identifier_eq a b = a.value == b.value

unfoldable pub identifier_neq : InstanceIdentifier → InstanceIdentifier → Bool
identifier_neq a b = not (a.value == b.value)

pub record ProxyBase : Type 0 where
  pub instance : InstanceIdentifier

pub record SkeletonBase : Type 0 where
  pub instance : InstanceIdentifier
  pub is_offered : Bool

unfoldable pub make_skeleton : InstanceIdentifier → SkeletonBase
make_skeleton id = record { instance = id; is_offered = false }

unfoldable pub offer_service : SkeletonBase → SkeletonBase
offer_service s = record s { is_offered = true }

unfoldable pub stop_offer_service : SkeletonBase → SkeletonBase
stop_offer_service s = record s { is_offered = false }

unfoldable pub destroy_skeleton : SkeletonBase → SkeletonBase
destroy_skeleton s = if s.is_offered then stop_offer_service s else s

-- The operators tell equal identifiers from others, and are opposites.
pub identifier_eq_iff :
    (a b : InstanceIdentifier) → (identifier_eq a b ≡ true) ↔ (a.value ≡ b.value)
unfolding identifier_eq
identifier_eq_iff a b = String_eq.same_iff a.value b.value

pub identifier_neq-eq : (a b : InstanceIdentifier) → identifier_neq a b ≡ not (identifier_eq a b)
unfolding identifier_eq identifier_neq
identifier_neq-eq a b = refl

-- A skeleton that is destroyed is not offered.
pub destroy_skeleton-offered : (s : SkeletonBase) → (destroy_skeleton s).is_offered ≡ false
unfolding destroy_skeleton stop_offer_service
destroy_skeleton-offered s = ground arith
