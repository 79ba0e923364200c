-- ===== src/Server/Gateway/Starting.antt =====
-- Which public servers start.
use sco.Common.{
  ◌≡◌, ◌≢◌, refl, sym, ap, ◌∙◌, List, [], ◌∷◌, ◌++◌, Option, none, some, All, Option-cases, inl,
  inr, append-nil, append_assoc, fun_ext,
}
use sco.Common.Text.{codes}
use sco.Server.Cluster.{Service, Cluster}
use sco.Server.Gateway.{
  Kind, kind_of, PublicServer, start_service, next_cluster, start_services, start_clusters,
  start_public_servers,
}

module _ {F : Type 0} where
  -- All services, cluster by cluster
  abbrev pub services_of : List (Cluster F) → List (Service F)
  services_of [] = []
  services_of (cl ∷ clusters) = cl.services ++ services_of clusters

  -- The servers of a service: none for a type that is unknown
  abbrev servers_of : Option Kind → Service F → List (PublicServer F)
  servers_of none s = []
  servers_of (some kind) s = start_service kind s

  abbrev pub all_servers : List (Service F) → List (PublicServer F)
  all_servers [] = []
  all_servers (s ∷ services) = servers_of (kind_of s.type) s ++ all_servers services

  abbrev pub IsKnown : Service F → Type 0
  IsKnown s = kind_of s.type ≢ none

  start_services-append :
      (front back : List (Service F)) (started : List (PublicServer F))
      → start_services (front ++ back) started
        ≡ next_cluster (start_services back) (start_services front started)
  unfolding start_services
  start_services-append [] back started = refl
  start_services-append (s ∷ front) back started = elim (Option-cases (kind_of s.type)) [
    | inl e ↦ rw (e, start_services) refl
    | inr (kind, e) ↦
        rw (e, start_services) (start_services-append front back (started ++ start_service kind s))
  ]

  start_clusters-services :
      (clusters : List (Cluster F)) (started : List (PublicServer F))
      → start_clusters clusters started ≡ start_services (services_of clusters) started
  unfolding start_clusters start_services
  start_clusters-services [] started = refl
  start_clusters-services (cl ∷ clusters) started =
      ap (λ rest. next_cluster rest (start_services cl.services started))
        (fun_ext (start_clusters-services clusters))
      ∙ sym (start_services-append cl.services (services_of clusters) started)

  start_known :
      (services back : List (Service F)) (started : List (PublicServer F))
      → All IsKnown services
      → start_services (services ++ back) started
        ≡ start_services back (started ++ all_servers services)
  unfolding start_services
  start_known [] back started h = ap (start_services back) (sym (append-nil started))
  start_known (s ∷ services) back started h = elim (Option-cases (kind_of s.type)) [
    | inl e ↦ absurd (h.0 e)
    | inr (kind, e) ↦
        rw (e, start_services)
          (start_known services back (started ++ start_service kind s) h.1
            ∙ ap (start_services back)
                (append_assoc started (start_service kind s) (all_servers services)))
  ]

  -- Where every service of every cluster is tcp or http, StartPublicServers starts a server for each
  -- of their ports and returns no error.
  pub start_public_servers-all :
      (clusters : List (Cluster F))
      → All IsKnown (services_of clusters)
      → start_public_servers clusters ≡ (none, all_servers (services_of clusters))
  unfolding start_public_servers start_services
  start_public_servers-all clusters h =
      start_clusters-services clusters []
      ∙ (ap (λ ss. start_services ss []) (sym (append-nil (services_of clusters)))
          ∙ start_known (services_of clusters) [] [] h)

  -- The first service of another type ends StartPublicServers with an error that names the type: the
  -- servers of the services before it run, those of the later ones, in later clusters, too, do not.
  pub start_public_servers-unknown :
      (clusters : List (Cluster F)) (front back : List (Service F)) (s : Service F)
      → services_of clusters ≡ front ++ s ∷ back
      → All IsKnown front
      → kind_of s.type ≡ none
      → start_public_servers clusters
        ≡ (some (codes "unknown service type: " ++ s.type), all_servers front)
  unfolding start_public_servers start_services
  start_public_servers-unknown clusters front back s at h unknown =
      start_clusters-services clusters []
      ∙ (ap (λ ss. start_services ss []) at
          ∙ (start_known front (s ∷ back) [] h ∙ rw (unknown, start_services) refl))
