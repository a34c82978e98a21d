-- ===== src/Admin/Resource/Laws.antt =====
-- What a request to a collection changes, for every component that keeps the laws of its interface.
use crispy_garbanzo.Base.{
  ℕ, ◌+◌, String, Bool, true, false, Option, none, some, List, ◌==◌, ◌≡◌, ◌≢◌, ◌⊎◌, inl, inr, refl,
  sym, ap, subst, ◌∙◌, arith, Bool-cases, IoError, Disk, Faults, save_atomic,
}
use crispy_garbanzo.Admin.Resource.{
  Checked, valid, rejected, Resource, Method, get, post, delete_method, other_method, Target,
  collection, item, Reply, failed, listed, found, created, deleted, Service, System, saved, persist,
  create, serve_collection, found_or_missing, delete_item, serve_method, serve_item, serve,
}

-- What a component promises: under its invariant, an entry is found after it is put, as it is stored;
-- an entry that is deleted is not found; a deletion of nothing changes nothing.
pub record IsResource {S A : Type 0} (R : Resource S A) (Inv : S → Type 0) : Type 1 where
  pub find-put : (now : ℕ) (a : A) (s : S) → R.find (R.key a) (R.put now a s) ≡ some (R.stored a)
  pub find-delete : (id : String) (s : S) → Inv s → R.find id (R.delete id s).0 ≡ none
  pub delete-missing : (id : String) (s : S) → (R.delete id s).1 ≡ false → (R.delete id s).0 ≡ s
  pub put-Inv : (now : ℕ) (a : A) (s : S) → Inv s → Inv (R.put now a s)
  pub delete-Inv : (id : String) (s : S) → Inv s → Inv (R.delete id s).0

module _ {S A : Type 0} (R : Resource S A) where
  -- the file holds what the component holds, and the gateway is told once more
  abbrev pub IsPublished : Service S A → Service S A → Type 0
  IsPublished s s' = (s'.file.file ≡ some (R.all s'.content)) × (s'.signals ≡ s.signals + 1)

  -- the file and the gateway are left alone
  abbrev pub IsUnpublished : Service S A → Service S A → Type 0
  IsUnpublished s s' = (s'.file.file ≡ s.file.file) × (s'.signals ≡ s.signals)

  -- what a reply says of the states before and after
  module _ (Inv : S → Type 0) where
    abbrev pub Effect : Service S A → Service S A × Reply A → Type 0
    Effect s (s', failed status e) =
        Inv s'.content × IsUnpublished s s' × ((status ≡ 500) ⊎ (s'.content ≡ s.content))
    Effect s (s', listed entries) = (s' ≡ s) × (entries ≡ R.all s.content)
    Effect s (s', found a) = s' ≡ s
    Effect s (s', created a) =
        Inv s'.content × IsPublished s s' × (R.find (R.key a) s'.content ≡ some (R.stored a))
    Effect s (s', deleted id) = Inv s'.content × IsPublished s s' × (R.find id s'.content ≡ none)

  module _ (Inv : S → Type 0) (L : IsResource R Inv) where
    unchanged :
        (s : Service S A) (status : ℕ) (e : String)
        → Inv s.content
        → Effect Inv s (s, failed status e)
    unchanged s status e i = (i, (refl, refl), inr refl)

    saved-Effect :
        (f : Faults (List A)) (s : Service S A) (content : S) (reply : Reply A) (d : Disk (List A))
        (error : Option IoError)
        → Inv content
        → (error ≡ none → d.file ≡ some (R.all content))
        → (error ≢ none → d.file ≡ s.file.file)
        → ((s' : Service S A) → s'.content ≡ content → IsPublished s s' → Effect Inv s (s', reply))
        → Effect Inv s (saved R error reply (record s { content = content; file = d }))
    unfolding saved
    saved-Effect f s content reply d none i new old ok = ok _ refl (new refl, refl)
    saved-Effect f s content reply d (some e) i new old ok = (i, (old (λ h. cc), refl), inl refl)

    save_atomic-new :
        (f : Faults (List A)) (xs : List A) (d : Disk (List A))
        → (save_atomic f xs d).1 ≡ none
        → (save_atomic f xs d).0.file ≡ some xs
    unfolding save_atomic
    save_atomic-new f xs d h = ground arith

    save_atomic-old :
        (f : Faults (List A)) (xs : List A) (d : Disk (List A))
        → (save_atomic f xs d).1 ≢ none
        → (save_atomic f xs d).0.file ≡ d.file
    unfolding save_atomic
    save_atomic-old f xs d h = ground arith

    persist-Effect :
        (sys : System A) (s : Service S A) (content : S) (reply : Reply A)
        → Inv content
        → ((s' : Service S A) → s'.content ≡ content → IsPublished s s' → Effect Inv s (s', reply))
        → Effect Inv s (persist R sys reply (record s { content = content }))
    unfolding persist
    persist-Effect sys s content reply i =
        saved-Effect sys.faults s content reply _ _ i
          (save_atomic-new sys.faults (R.all content) s.file)
          (save_atomic-old sys.faults (R.all content) s.file)

    create-Effect :
        (sys : System A) (c : Checked A) (s : Service S A)
        → Inv s.content
        → Effect Inv s (create R sys c s)
    unfolding create
    create-Effect sys (rejected e) s i = unchanged s 400 e i
    create-Effect sys (valid a) s i =
        persist-Effect sys s (R.put sys.now a s.content) (created a)
          (L.put-Inv sys.now a s.content i)
          (λ s' e p.
            (rw e (L.put-Inv sys.now a s.content i), p, rw e (L.find-put sys.now a s.content)))

    collection-Effect :
        (sys : System A) (m : Method) (body : Option A) (s : Service S A)
        → Inv s.content
        → Effect Inv s (serve_collection R sys m body s)
    unfolding serve_collection
    collection-Effect sys get body s i = (refl, refl)
    collection-Effect sys post none s i = unchanged s 400 "invalid JSON body" i
    collection-Effect sys post (some a) s i = create-Effect sys (R.check a) s i
    collection-Effect sys delete_method body s i = unchanged s 405 "method not allowed" i
    collection-Effect sys other_method body s i = unchanged s 405 "method not allowed" i

    delete-Effect :
        (sys : System A) (id : String) (s : Service S A) (out : S × Bool)
        → R.delete id s.content ≡ out
        → Inv s.content
        → Effect Inv s (delete_item R sys id out s)
    unfolding delete_item
    delete-Effect sys id s (rest, false) e i =
        let same : rest ≡ s.content =
          sym (ap (λ t. t.0) e) ∙ L.delete-missing id s.content (ap (λ t. t.1) e) in
        (rw same i, (refl, refl), inr same)
    delete-Effect sys id s (rest, true) e i =
        let here : (R.delete id s.content).0 ≡ rest = ap (λ t. t.0) e in
        let kept : Inv rest = subst Inv here (L.delete-Inv id s.content i) in
        persist-Effect sys s rest (deleted id) kept (λ s' c p. (
          rw c kept,
          p,
          rw c (subst (λ t. R.find id t ≡ none) here (L.find-delete id s.content i)),
        ))

    found-Effect :
        (o : Option A) (s : Service S A) → Inv s.content → Effect Inv s (found_or_missing R o s)
    unfolding found_or_missing
    found-Effect none s i = unchanged s 404 R.label i
    found-Effect (some a) s i = refl

    method-Effect :
        (sys : System A) (m : Method) (id : String) (s : Service S A)
        → Inv s.content
        → Effect Inv s (serve_method R sys m id s)
    unfolding serve_method
    method-Effect sys get id s i = found-Effect (R.find id s.content) s i
    method-Effect sys post id s i = unchanged s 405 "method not allowed" i
    method-Effect sys delete_method id s i = delete-Effect sys id s (R.delete id s.content) refl i
    method-Effect sys other_method id s i = unchanged s 405 "method not allowed" i

    -- whatever the request and the disk do
    pub serve-Effect :
        (sys : System A) (m : Method) (t : Target) (body : Option A) (s : Service S A)
        → Inv s.content
        → Effect Inv s (serve R sys m t body s)
    unfolding serve serve_item
    serve-Effect sys m collection body s i = collection-Effect sys m body s i
    serve-Effect sys m (item id) body s i = elim (Bool-cases (id == "")) [
      | inl blank ↦ rw blank (unchanged s 400 "id required in path" i)
      | inr given ↦ rw given (method-Effect sys m id s i)
    ]
