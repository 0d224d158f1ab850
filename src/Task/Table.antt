-- ===== src/Task/Table.antt =====
-- `TaskList` of src/task.rs: a vector of tasks, searched by identifier. What `get_mut` is used for
-- is a change of the first task that has the identifier.
use jericho_os.Base.{
  ℕ, ◌≡◌, Bool, Option, none, some, List, [], ◌∷◌, ◌++◌, length as list_length, is_empty, is_some,
  ◌==◌, if◌then◌else◌, arith,
}
use mathlib.Core.Option
use jericho_os.Task.{Task, TaskState}
use jericho_os.Task

pub record TaskList : Type 0 where
  pub tasks : List Task

unfoldable pub new : TaskList
new = record { tasks = [] }

unfoldable pub add : TaskList → Task → TaskList × ℕ
add l task = (record { tasks = l.tasks ++ task ∷ [] }, task.id)

unfoldable pub find : ℕ → List Task → Option Task
find id [] = none
find id (t ∷ ts) = if t.id == id then some t else find id ts

unfoldable pub get : TaskList → ℕ → Option Task
unfolding find
get l id = find id l.tasks

unfoldable pub modify : ℕ → (Task → Task) → List Task → List Task
modify id f [] = []
modify id f (t ∷ ts) = if t.id == id then f t ∷ ts else t ∷ modify id f ts

unfoldable pub get_mut : TaskList → ℕ → (Task → Task) → TaskList
unfolding modify
get_mut l id f = record { tasks = modify id f l.tasks }

-- The tasks left when the first one with the identifier is taken out.
unfoldable pub take_out : ℕ → List Task → List Task
take_out id [] = []
take_out id (t ∷ ts) = if t.id == id then ts else t ∷ take_out id ts

unfoldable pub remove : TaskList → ℕ → TaskList × Option Task
unfolding find take_out
remove l id = (record { tasks = take_out id l.tasks }, find id l.tasks)

unfoldable pub length : TaskList → ℕ
length l = list_length l.tasks

unfoldable pub empty? : TaskList → Bool
empty? l = is_empty l.tasks

-- The state of a task, if there is one with the identifier.
unfoldable pub state_of : TaskList → ℕ → Option TaskState
unfolding get
state_of l id = Option.map (λ t. t.state) (get l id)

unfoldable pub set_state_in : TaskList → ℕ → TaskState → TaskList
unfolding get_mut Task.set_state
set_state_in l id state = get_mut l id (λ t. Task.set_state t state)

abbrev pub replaced : Option TaskState → TaskState → Option TaskState
replaced none state = none
replaced (some old) state = some state

find-modify :
    (id k : ℕ) (state : TaskState) (ts : List Task)
    → Option.map (λ t. t.state) (find k (modify id (λ t. Task.set_state t state) ts)) ≡ (
        if id == k
        then replaced (Option.map (λ t. t.state) (find k ts)) state
        else Option.map (λ t. t.state) (find k ts))
unfolding find modify Task.set_state
find-modify id k state [] = ground arith
find-modify id k state (t ∷ ts) = ground (arith, find-modify id k state ts)

pub state_of-set_state_in :
    (l : TaskList) (id : ℕ) (state : TaskState) (k : ℕ)
    → state_of (set_state_in l id state) k
      ≡ (if id == k then replaced (state_of l k) state else state_of l k)
unfolding state_of set_state_in
state_of-set_state_in l id state k = find-modify id k state l.tasks

find-append :
    (k : ℕ) (ts : List Task) (t : Task)
    → Option.map (λ t. t.state) (find k (ts ++ t ∷ [])) ≡ (
        if is_some (find k ts)
        then Option.map (λ t. t.state) (find k ts)
        else if t.id == k
        then some t.state
        else none)
unfolding find
find-append k [] t = ground arith
find-append k (x ∷ ts) t = ground (arith, find-append k ts t)

pub state_of-add :
    (l : TaskList) (t : Task) (k : ℕ)
    → state_of l t.id ≡ none
    → state_of (add l t).0 k ≡ (if t.id == k then some t.state else state_of l k)
unfolding state_of add get
state_of-add l t k fresh = ground (arith, find-append k l.tasks t)
