-- ===== src/SomeIp/Discovery/All.antt =====
-- `FindServices` for all ids, over the unordered table (src/ara/com/someip_binding.cpp).
use mathlib.Core.List.{Perm}
use my_auto_sar_ap.Prelude.{ℕ, ◌≡◌, refl, sym, ap, subst, List, [], ◌∷◌, ℕ_eq}
use my_auto_sar_ap.Prelude.Map.{lookup, IsDistinct}
use my_auto_sar_ap.Prelude.Rehash.{gather, gather-Perm}
use my_auto_sar_ap.SomeIp.Discovery.{ServiceDiscovery, ServiceDescriptor, values, find_services}

abbrev service_of : ℕ × ServiceDescriptor → List ServiceDescriptor
service_of (id, svc) = svc ∷ []

values-gather : (m : List (ℕ × ServiceDescriptor)) → values m ≡ gather service_of m
values-gather [] = refl
values-gather ((id, svc) ∷ m) = ap (λ l. svc ∷ l) (values-gather m)

-- Two discoveries that offer the same services list the same services, each once, up to order.
pub find_services-Perm :
    (sd other : ServiceDiscovery)
    → IsDistinct sd.offered_services
    → IsDistinct other.offered_services
    → ((id : ℕ) → lookup id sd.offered_services ≡ lookup id other.offered_services)
    → Perm (find_services sd 0xffff) (find_services other 0xffff)
unfolding find_services
find_services-Perm sd other d e same =
    subst (λ l. Perm l (values other.offered_services)) (sym (values-gather sd.offered_services))
      (subst (λ l. Perm (gather service_of sd.offered_services) l)
        (sym (values-gather other.offered_services))
        (gather-Perm service_of sd.offered_services other.offered_services d e same))
