-- ===== src/Client/Sync/Ends.antt =====
-- client/sync.go: when the methods end. `bus` answers from graphs with no cycle of edges, of which `rank` is a
-- bound of the height, whatever happens between two requests.
pub mod Walks
pub mod Children
pub mod Whole
use simpleiot.Prelude.{
  ℕ, ◌<◌, ◌≢◌, ◌≡◌, String, Bool, true, false, List, [], ◌∷◌, if◌then◌else◌, All,
}
use simpleiot.Data.Node.{NodeEdge}
use simpleiot.Client.Sync.{
  Connection, Reply, found, not_found, failed, Bus, SyncClient, SyncError, Outcome, done, stopped,
  out_of_fuel, Act, ◌>>=◌, ◌>>◌, return, logged, check, call, each, nodes_or, ignored, and_then,
}

-- A method that has ended, with a result that has the property or with an error
abbrev pub Ended : {A W : Type 0} → (A → Type 0) → Outcome A W → Type 0
Ended P (done a s) = P a
Ended P (stopped e s) = Unit
Ended P out_of_fuel = ⊥

-- The method ends, whatever the state.
abbrev pub Ends : {A W : Type 0} → (A → Type 0) → Act W A → Type 0
Ends {W = W} P m = (s : SyncClient W) → Ended P (m s)

abbrev pub Any : {A : Type 0} → A → Type 0
Any a = Unit

pub and_then-Ended :
    {A B W : Type 0} (P : A → Type 0) (Q : B → Type 0) (o : Outcome A W) (f : A → Act W B)
    → Ended P o
    → ((a : A) → P a → Ends Q (f a))
    → Ended Q (and_then o f)
unfolding and_then
and_then-Ended P Q (done a s) f h k = k a h s
and_then-Ended P Q (stopped e s) f h k = tt
and_then-Ended P Q out_of_fuel f h k = absurd h

pub bind-Ends :
    {A B W : Type 0} (P : A → Type 0) (Q : B → Type 0) (m : Act W A) (f : A → Act W B)
    → Ends P m
    → ((a : A) → P a → Ends Q (f a))
    → Ends Q (m >>= f)
bind-Ends P Q m f h k s = and_then-Ended P Q (m s) f (h s) k

pub seq-Ends :
    {A B W : Type 0} (P : A → Type 0) (Q : B → Type 0) (m : Act W A) (k : Act W B)
    → Ends P m
    → Ends Q k
    → Ends Q (m >> k)
seq-Ends P Q m k h l s = and_then-Ended P Q (m s) (λ a. k) (h s) (λ a p. l)

ignored-Ended :
    {W : Type 0} (P : Unit → Type 0) (o : Outcome Unit W) → Ended P o → Ended Any (ignored o)
unfolding ignored
ignored-Ended P (done a s) h = tt
ignored-Ended P (stopped e s) h = tt
ignored-Ended P out_of_fuel h = absurd h

pub logged-Ends : {W : Type 0} (m : Act W Unit) → Ends Any m → Ends Any (logged m)
logged-Ends m h s = ignored-Ended Any (m s) (h s)

pub check-Ends : {W : Type 0} (e : SyncError) (b : Bool) → Ends {W = W} Any (check e b)
unfolding check
check-Ends e true s = tt
check-Ends e false s = tt

pub if-Ends :
    {A W : Type 0} (P : A → Type 0) (b : Bool) (m k : Act W A)
    → Ends P m
    → Ends P k
    → Ends P (if b then m else k)
if-Ends P true m k h l = h
if-Ends P false m k h l = l

pub return-Ends : {A W : Type 0} (P : A → Type 0) (a : A) → P a → Ends {W = W} P (return a)
return-Ends P a p s = p

pub each-Ends :
    {W : Type 0} (f : NodeEdge → Act W Unit) (ns : List NodeEdge)
    → All (λ n. Ends Any (f n)) ns
    → Ends Any (each f ns)
unfolding each
each-Ends f [] h = λ s. tt
each-Ends f (n ∷ ns) h = seq-Ends Any Any (f n) (each f ns) h.0 (each-Ends f ns h.1)

-- The nodes of a reply
abbrev pub nodes : Reply → List NodeEdge
nodes (found ns) = ns
nodes not_found = []
nodes failed = []

pub nodes_or-Ends :
    {W : Type 0} (P : NodeEdge → Type 0) (e : SyncError) (r : Reply)
    → All P (nodes r)
    → Ends {W = W} (All P) (nodes_or e r)
unfolding nodes_or
nodes_or-Ends P e (found ns) h s = h
nodes_or-Ends P e not_found h s = tt
nodes_or-Ends P e failed h s = tt

pub All-imp :
    {A : Type 0} (P Q : A → Type 0) (xs : List A) → ((a : A) → P a → Q a) → All P xs → All Q xs
All-imp P Q [] f h = tt
All-imp P Q (x ∷ xs) f h = (f x h.0, All-imp P Q xs f h.1)

-- What the stores answer: nodes below a node are of smaller rank, and nodes that are asked for by
-- an ID have that ID. "all" is no ID.
pub record IsAcyclic {W : Type 0} (bus : Bus W) (rank : String → ℕ) : Type 0 where
  pub below :
      (c : Connection) (id : String) (deleted : Bool) (w : W)
      → All
          (λ n. (n.id ≢ "all") × (rank n.id < rank id))
          (nodes (bus.get_nodes c id "all" deleted w).0)
  pub named :
      (c : Connection) (parent id : String) (deleted : Bool) (w : W)
      → id ≢ "all"
      → All (λ n. n.id ≡ id) (nodes (bus.get_nodes c parent id deleted w).0)
