-- ===== src/Agent/Undo.antt =====
-- HandleAdd and HandleDel (cmd/node-agent/main.go): what is left of a pod after an ADD that fails, or
-- after its DEL.
use coordino.Base.{ℕ, ◌≡◌, ◌≢◌, refl, ap, ◌∙◌, none, some, [], Bytes, bytes_eq}
use mathlib.Core.Path.{ap₂}
use coordino.Base.GoMap.{lookup, delete, lookup-insert_self, delete-insert_fresh}
use coordino.Ipam.Node.{pod_key, release}
use coordino.Ipam.Node.Invariant.{IsValid}
use coordino.Ipam.Node.Release.{release-allocate}
use coordino.Policy.Identity.{IdentityAllocator, release_identity}
use coordino.Policy.Identity.Invariant
use coordino.Policy.Identity.Counting.{release-allocate_identity}
use coordino.Rpc.{AddRequest, AddResponse, DelRequest}
use coordino.Agent.{
  Environment, NodeAgent, handle_add, handle_del, remove_pod, release_pod, labels_of_request,
  PodEndpointInfo,
}
use coordino.Agent.Handler.{undone, tracked, no_address, addressed, handle_add-Outcome, info_of}

module _ (E : Environment) where
  -- The same addresses, identities and endpoints; the next identity's number may have grown.
  pub record SamePods (a b : NodeAgent E) : Type 0 where
    pub allocator : b.allocator ≡ a.allocator
    pub identities : b.identity_allocator.identities ≡ a.identity_allocator.identities
    pub hashes : b.identity_allocator.hash_to_id ≡ a.identity_allocator.hash_to_id
    pub endpoints : b.pod_endpoints ≡ a.pod_endpoints

  -- Where HandleAdd answers with an error for a pod without an address, on valid allocators, the
  -- agent is left with the same addresses, the same identities with their counts and hashes, and the
  -- same tracked pods as before, whichever step failed.
  pub handle_add_fails :
      (now : ℕ) (req : AddRequest) (a b : NodeAgent E) (resp : AddResponse)
      → IsValid a.allocator
      → Invariant.IsValid E.digest a.identity_allocator
      → lookup (pod_key req.pod_name req.pod_namespace) a.allocator.allocated ≡ none
      → handle_add E now req a ≡ some (b, resp)
      → resp.error ≢ []
      → SamePods a b
  handle_add_fails now req a b resp v w fresh h failed =
      elim (handle_add-Outcome E now req a b resp h) [
        | no_address identity e named refused m i p x ↦
            let (ids, hashes) =
              release-allocate_identity E.digest a.identity_allocator (labels_of_request req)
                identity w named in
            record {
              allocator = m;
              identities = ap (λ (x : IdentityAllocator). x.identities) i ∙ ids;
              hashes = ap (λ (x : IdentityAllocator). x.hash_to_id) i ∙ hashes;
              endpoints = p;
            }
        | addressed identity ip named found (tracked t e i) ↦ absurd (failed e)
        | addressed identity ip named found (undone u x) ↦
            let (ids, hashes) =
              release-allocate_identity E.digest a.identity_allocator (labels_of_request req)
                identity w named in
            record {
              allocator =
                  u.allocator
                  ∙ release-allocate a.allocator req.pod_name req.pod_namespace now ip v fresh
                      found;
              identities = ap (λ (x : IdentityAllocator). x.identities) u.identities ∙ ids;
              hashes = ap (λ (x : IdentityAllocator). x.hash_to_id) u.identities ∙ hashes;
              endpoints = u.endpoints;
            }
      ]

  module _ (req : DelRequest) where
    abbrev del_key : Bytes
    del_key = pod_key req.pod_name req.pod_namespace

    -- HandleDel of a tracked pod.
    pub record Removed (info : PodEndpointInfo) (a b : NodeAgent E) : Type 0 where
      pub allocator : b.allocator ≡ release a.allocator req.pod_name req.pod_namespace
      pub identities :
          b.identity_allocator ≡ (release_identity a.identity_allocator info.identity_id).0
      pub endpoints : b.pod_endpoints ≡ delete del_key a.pod_endpoints

    pub handle_del-Removed :
        (a : NodeAgent E) (info : PodEndpointInfo)
        → lookup del_key a.pod_endpoints ≡ some info
        → Removed info a (handle_del E req a).0
    unfolding handle_del remove_pod release_pod
    handle_del-Removed a info h =
        rw (h, handle_del) (record { allocator = refl; identities = refl; endpoints = refl })

  -- After HandleAdd has set up a pod that had no address and was not tracked, on valid allocators, a
  -- HandleDel for the same name and namespace leaves the agent with the addresses, the identities
  -- with their counts and hashes, and the tracked pods of before.
  pub handle_del-handle_add :
      (now : ℕ) (req : AddRequest) (del : DelRequest) (a b : NodeAgent E) (resp : AddResponse)
      → IsValid a.allocator
      → Invariant.IsValid E.digest a.identity_allocator
      → lookup (pod_key req.pod_name req.pod_namespace) a.allocator.allocated ≡ none
      → lookup (pod_key req.pod_name req.pod_namespace) a.pod_endpoints ≡ none
      → del.pod_name ≡ req.pod_name
      → del.pod_namespace ≡ req.pod_namespace
      → handle_add E now req a ≡ some (b, resp)
      → resp.error ≡ []
      → SamePods a (handle_del E del b).0
  handle_del-handle_add now req del a b resp v w fresh untracked same_name same_namespace h worked =
      elim (handle_add-Outcome E now req a b resp h) [
        | no_address identity e named refused m i p x ↦ absurd (x worked)
        | addressed identity ip named found (undone u x) ↦ absurd (x worked)
        | addressed identity ip named found (tracked t e i) ↦
            let info = info_of E now req ip identity.id in
            let same : pod_key del.pod_name del.pod_namespace
                ≡ pod_key req.pod_name req.pod_namespace =
              ap₂ pod_key same_name same_namespace in
            let held : lookup (pod_key del.pod_name del.pod_namespace) b.pod_endpoints ≡ some info =
              ap₂ (λ k m. lookup k m) same t.endpoints
              ∙ lookup-insert_self (pod_key req.pod_name req.pod_namespace) info a.pod_endpoints in
            let r = handle_del-Removed del b info held in
            let (ids, hashes) =
              release-allocate_identity E.digest a.identity_allocator (labels_of_request req)
                identity w named in
            let counts = r.identities ∙ ap (λ x. (release_identity x identity.id).0) t.identities in
            record {
              allocator =
                  r.allocator
                  ∙ ap₂ (λ n s. release b.allocator n s) same_name same_namespace
                  ∙ ap (λ m. release m req.pod_name req.pod_namespace) t.allocator
                  ∙ release-allocate a.allocator req.pod_name req.pod_namespace now ip v fresh
                      found;
              identities = ap (λ (x : IdentityAllocator). x.identities) counts ∙ ids;
              hashes = ap (λ (x : IdentityAllocator). x.hash_to_id) counts ∙ hashes;
              endpoints =
                  r.endpoints
                  ∙ ap₂ (λ k m. delete k m) same t.endpoints
                  ∙ delete-insert_fresh (pod_key req.pod_name req.pod_namespace) info
                      a.pod_endpoints untracked;
            }
      ]
