-- ===== src/Services/Catalogue.antt =====
-- The runner knows the services of the catalogue.
use updater_service.Base.{
  String, none, some, List, [], ◌∷◌, ok, ◌≡◌, ◌≢◌, ◌↔◌, ◌⊎◌, All, ap, sym, ◌∙◌, arith, string_eq,
  string_dec, Option-cases, inl, inr, refl,
}
use updater_service.Services.{
  ServiceDefinition, Machine, catalogue, new_service_definition, service_of, add_services,
  new_runner, restart,
}

-- A service whose name is not among those that were added is not known.
add_services_lem :
    (m : Machine) (root service : String) (names : List String)
    → (service_of (add_services m root names) service ≡ new_service_definition m root service)
      ⊎ (All (λ name. service ≢ name) names
          × (service_of (add_services m root names) service ≡ none))
unfolding add_services service_of
add_services_lem m root service [] = inr (tt, refl)
add_services_lem m root service (name ∷ names) =
    let rest = add_services_lem m root service names in
    elim (Option-cases (new_service_definition m root name)) [
      | inl absent ↦ elim (string_dec service name) [
        | yes same ↦ elim rest [
          | inl found ↦ inl (ground (arith, absent, found))
          | inr (others, missing) ↦
              let gone : new_service_definition m root service ≡ none =
                ap (new_service_definition m root) same ∙ absent in
              inl (ground (arith, absent, missing, gone))
        ]
        | no differ ↦ elim rest [
          | inl found ↦ inl (ground (arith, absent, found))
          | inr (others, missing) ↦ inr ((differ, others), ground (arith, absent, missing))
        ]
      ]
      | inr (def, there) ↦ elim (string_dec service name) [
        | yes same ↦
            let here : new_service_definition m root service ≡ some def =
              ap (new_service_definition m root) same ∙ there in
            inl (ground (arith, there, same, here))
        | no differ ↦ elim rest [
          | inl found ↦ inl (ground (arith, there, differ, found))
          | inr (others, missing) ↦ inr ((differ, others), ground (arith, there, differ, missing))
        ]
      ]
    ]

container_lem :
    (m : Machine) (root service : String) (def : ServiceDefinition)
    → new_service_definition m root service ≡ some def
    → def.container ≡ service
unfolding new_service_definition catalogue
container_lem m root service def h = ground (arith, h)

unknown_lem :
    (m : Machine) (root service : String)
    → service ≢ "hello-service"
    → service ≢ "config-service"
    → service ≢ "test-service"
    → service ≢ "data-service"
    → new_service_definition m root service ≡ none
unfolding new_service_definition catalogue
unknown_lem m root service a b c d = ground (arith, a, b, c, d)

known_lem :
    (m : Machine) (root service : String)
    → service_of (new_runner m root) service ≡ new_service_definition m root service
unfolding new_runner
known_lem m root service =
    elim (add_services_lem m root service
      ("hello-service" ∷ "config-service" ∷ "test-service" ∷ "data-service" ∷ [])) [
        | inl found ↦ found
        | inr ((a, (b, (c, (d, e)))), missing) ↦ missing ∙ sym (unknown_lem m root service a b c d)
      ]

-- For every name, the runner has the definition that the catalogue makes of it, and none where that
-- has none. A service's container is called as the service, so a restart asks docker for that name,
-- and fails for a service that is unknown.
pub new_runner_lem :
    (m : Machine) (root service : String)
    → (service_of (new_runner m root) service ≡ new_service_definition m root service)
      × ((def : ServiceDefinition)
          → new_service_definition m root service ≡ some def
          → (def.container ≡ service)
            × ((restart m (new_runner m root) service ≡ ok tt)
                ↔ (m.docker_restart service ≡ ok tt)))
      × (new_service_definition m root service ≡ none
          → restart m (new_runner m root) service ≢ ok tt)
unfolding restart
new_runner_lem m root service =
    let known = known_lem m root service in
    (
      known,
      λ def there.
          let named = container_lem m root service def there in
          (named, ground (arith, known, there, named)),
      λ absent. ground (arith, known, absent),
    )
