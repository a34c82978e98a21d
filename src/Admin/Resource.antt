-- ===== src/Admin/Resource.antt =====
-- cmd/clawgress-admin-api/main.go: the two handlers of a collection, "/v1/agents" and "/v1/agents/" and the
-- same for policies and quotas. They differ in the component that they call and in what they check of a
-- body, which is the interface `Resource`. Of an error of the disk the answer has no text here.
pub mod Laws
use crispy_garbanzo.Base.{
  ℕ, ◌+◌, String, Bool, true, false, Option, none, some, List, [], ◌∷◌, ◌==◌, if◌then◌else◌,
  IoError, Disk, Faults, save_atomic,
}

-- a body as it is taken over, with its defaults, or the text of the error
pub data Checked (A : Type 0) : Type 0 where
  valid : A → Checked A
  rejected : String → Checked A

-- what a handler calls of its component, whose state is `S` and whose entries are `A`
pub record Resource (S A : Type 0) : Type 0 where
  pub all : S → List A
  pub find : String → S → Option A
  pub put : ℕ → A → S → S
  pub delete : String → S → S × Bool
  pub check : A → Checked A
  pub label : String
  -- the id of an entry, and the entry as it is kept
  pub key : A → String
  pub stored : A → A

pub data Method : Type 0 where
  get post delete_method other_method : Method

-- the URL: the collection, or what stands behind its last slash
pub data Target : Type 0 where
  collection : Target
  item : String → Target

pub data Reply (A : Type 0) : Type 0 where
  failed : ℕ → String → Reply A
  listed : List A → Reply A
  found : A → Reply A
  created : A → Reply A
  deleted : String → Reply A

-- the component, its file, and how often the gateway was told to reload
pub record Service (S A : Type 0) : Type 0 where
  pub content : S
  pub file : Disk (List A)
  pub signals : ℕ

-- what the clock and the disk answer to one request
pub record System (A : Type 0) : Type 0 where
  pub now : ℕ
  pub faults : Faults (List A)

module _ {S A : Type 0} (R : Resource S A) where
  -- the answer once the file is written or not
  unfoldable pub saved : Option IoError → Reply A → Service S A → Service S A × Reply A
  saved (some e) reply s = (s, failed 500 "save failed")
  saved none reply s = (record s { signals = s.signals + 1 }, reply)

  unfoldable pub persist : System A → Reply A → Service S A → Service S A × Reply A
  unfolding saved save_atomic
  persist sys reply s =
      let (file, error) = save_atomic sys.faults (R.all s.content) s.file in
      saved error reply (record s { file = file })

  unfoldable pub create : System A → Checked A → Service S A → Service S A × Reply A
  unfolding persist
  create sys (rejected e) s = (s, failed 400 e)
  create sys (valid a) s =
      persist sys (created a) (record s { content = R.put sys.now a s.content })

  -- a body, `none` if it is no JSON
  unfoldable pub serve_collection :
      System A → Method → Option A → Service S A → Service S A × Reply A
  unfolding create
  serve_collection sys get body s = (s, listed (R.all s.content))
  serve_collection sys post none s = (s, failed 400 "invalid JSON body")
  serve_collection sys post (some a) s = create sys (R.check a) s
  serve_collection sys delete_method body s = (s, failed 405 "method not allowed")
  serve_collection sys other_method body s = (s, failed 405 "method not allowed")

  unfoldable pub found_or_missing : Option A → Service S A → Service S A × Reply A
  found_or_missing none s = (s, failed 404 R.label)
  found_or_missing (some a) s = (s, found a)

  -- a deletion, with the answer of the component
  unfoldable pub delete_item : System A → String → S × Bool → Service S A → Service S A × Reply A
  unfolding persist
  delete_item sys id (rest, false) s = (record s { content = rest }, failed 404 R.label)
  delete_item sys id (rest, true) s = persist sys (deleted id) (record s { content = rest })

  unfoldable pub serve_method : System A → Method → String → Service S A → Service S A × Reply A
  unfolding found_or_missing delete_item
  serve_method sys get id s = found_or_missing (R.find id s.content) s
  serve_method sys delete_method id s = delete_item sys id (R.delete id s.content) s
  serve_method sys post id s = (s, failed 405 "method not allowed")
  serve_method sys other_method id s = (s, failed 405 "method not allowed")

  unfoldable pub serve_item : System A → Method → String → Service S A → Service S A × Reply A
  unfolding serve_method
  serve_item sys m id s =
      if id == "" then (s, failed 400 "id required in path") else serve_method sys m id s

  unfoldable pub serve : System A → Method → Target → Option A → Service S A → Service S A × Reply A
  unfolding serve_collection serve_item
  serve sys m collection body s = serve_collection sys m body s
  serve sys m (item id) body s = serve_item sys m id s
