-- ===== src/Ir/Graph/Uses.antt =====
-- What the loops of the graph's operations (src/ir/sea_of_nodes.cpp) do to the inputs and the outputs
-- of each node, counted.
use r_sjit.Common.{
  ℕ, ◌+◌, ◌≡◌, ◌≢◌, refl, ap, ◌∙◌, ◌==◌, ==_iff, List, [], ◌∷◌, ◌++◌, Option, none, some,
  if◌then◌else◌, arith, ltb,
}
use r_sjit.Ir.Graph.{
  Node, put, with_outputs, with_inputs, push_output, add_user, without, drop_output, drop_user,
  redirect, redirect_user, redirect_users,
}

unfoldable pub count : ℕ → List ℕ → ℕ
count n [] = 0
count n (m ∷ ms) = (if m == n then 1 else 0) + count n ms

unfoldable pub count_input : ℕ → List (Option ℕ) → ℕ
count_input n [] = 0
count_input n (none ∷ is) = count_input n is
count_input n (some i ∷ is) = (if i == n then 1 else 0) + count_input n is

count-append : (n : ℕ) (xs ys : List ℕ) → count n (xs ++ ys) ≡ count n xs + count n ys
unfolding count
count-append n [] ys = omega arith
count-append n (x ∷ xs) ys = omega (arith, count-append n xs ys)

pub count-without :
    (n m : ℕ) (xs : List ℕ) → count m (without n xs) ≡ (if n == m then 0 else count m xs)
unfolding count without
count-without n m [] = ground arith
count-without n m (x ∷ xs) = ground (arith, count-without n m xs)

pushed :
    (i n m u : ℕ) (h : ℕ → Node)
    → count u (push_output i n h m).outputs
      ≡ count u (h m).outputs + (if i == m then (if n == u then 1 else 0) else 0)
unfolding push_output put with_outputs count
pushed i n m u h = ground (
  arith,
  count-append u (h i).outputs (n ∷ []),
  ==_iff i m,
  λ (e : i ≡ m). ap (λ (j : ℕ). count u (h j).outputs) e,
)

dropped :
    (i n m u : ℕ) (h : ℕ → Node)
    → count u (drop_output i n h m).outputs
      ≡ (if i == m then (if n == u then 0 else count u (h m).outputs) else count u (h m).outputs)
unfolding drop_output put with_outputs
dropped i n m u h = ground (
  arith,
  count-without n u (h i).outputs,
  ==_iff i m,
  λ (e : i ≡ m). ap (λ (j : ℕ). count u (h j).outputs) e,
)

-- What `new_node` does to the other nodes.
pub add_user-outputs :
    (is : List (Option ℕ)) (n m u : ℕ) (h : ℕ → Node)
    → count u (add_user is n h m).outputs
      ≡ count u (h m).outputs + (if n == u then count_input m is else 0)
unfolding add_user count_input
add_user-outputs [] n m u h = ground arith
add_user-outputs (none ∷ is) n m u h = add_user-outputs is n m u h
add_user-outputs (some i ∷ is) n m u h =
    ground (arith, add_user-outputs is n m u (push_output i n h), pushed i n m u h)

push-inputs : (i n m : ℕ) (h : ℕ → Node) → (push_output i n h m).inputs ≡ (h m).inputs
unfolding push_output put with_outputs
push-inputs i n m h = ground (arith, ==_iff i m, λ (e : i ≡ m). ap (λ (j : ℕ). (h j).inputs) e)

drop-inputs : (i n m : ℕ) (h : ℕ → Node) → (drop_output i n h m).inputs ≡ (h m).inputs
unfolding drop_output put with_outputs
drop-inputs i n m h = ground (arith, ==_iff i m, λ (e : i ≡ m). ap (λ (j : ℕ). (h j).inputs) e)

pub add_user-inputs :
    (is : List (Option ℕ)) (n m : ℕ) (h : ℕ → Node) → (add_user is n h m).inputs ≡ (h m).inputs
unfolding add_user
add_user-inputs [] n m h = refl
add_user-inputs (none ∷ is) n m h = add_user-inputs is n m h
add_user-inputs (some i ∷ is) n m h =
    add_user-inputs is n m (push_output i n h) ∙ push-inputs i n m h

-- What `remove_node` does to the other nodes.
pub drop_user-outputs :
    (is : List (Option ℕ)) (n m u : ℕ) (h : ℕ → Node)
    → count u (drop_user is n h m).outputs ≡ (
        if n == u
        then (if ltb 0 (count_input m is) then 0 else count u (h m).outputs)
        else count u (h m).outputs)
unfolding drop_user count_input
drop_user-outputs [] n m u h = ground arith
drop_user-outputs (none ∷ is) n m u h = drop_user-outputs is n m u h
drop_user-outputs (some i ∷ is) n m u h =
    ground (arith, drop_user-outputs is n m u (drop_output i n h), dropped i n m u h)

pub drop_user-inputs :
    (is : List (Option ℕ)) (n m : ℕ) (h : ℕ → Node) → (drop_user is n h m).inputs ≡ (h m).inputs
unfolding drop_user
drop_user-inputs [] n m h = refl
drop_user-inputs (none ∷ is) n m h = drop_user-inputs is n m h
drop_user-inputs (some i ∷ is) n m h =
    drop_user-inputs is n m (drop_output i n h) ∙ drop-inputs i n m h

-- What a use of `replace_node` does to the other nodes.
pub count_input-redirect :
    (o n m : ℕ) (is : List (Option ℕ))
    → o ≢ n
    → count_input m (redirect o n is) ≡ (
        if m == o
        then 0
        else (if m == n then count_input o is + count_input n is else count_input m is))
unfolding count_input redirect
count_input-redirect o n m [] d = ground arith
count_input-redirect o n m (none ∷ is) d = count_input-redirect o n m is d
count_input-redirect o n m (some i ∷ is) d = ground (arith, count_input-redirect o n m is d)

redirected-outputs :
    (o n user m u : ℕ) (h : ℕ → Node)
    → count u (redirect_user o n user h m).outputs
      ≡ count u (h m).outputs + (if n == m then (if user == u then 1 else 0) else 0)
unfolding redirect_user put with_inputs
redirected-outputs o n user m u h = ground (
  arith,
  pushed n user m u (put user (with_inputs (h user) (redirect o n (h user).inputs)) h),
  ==_iff user m,
  λ (e : user ≡ m). ap (λ (j : ℕ). count u (h j).outputs) e,
)

redirected-inputs :
    (o n user m : ℕ) (h : ℕ → Node)
    → (redirect_user o n user h m).inputs
      ≡ (if user == m then redirect o n (h m).inputs else (h m).inputs)
unfolding redirect_user put with_inputs
redirected-inputs o n user m h = ground (
  arith,
  push-inputs n user m (put user (with_inputs (h user) (redirect o n (h user).inputs)) h),
  ==_iff user m,
  λ (e : user ≡ m). ap (λ (j : ℕ). redirect o n (h j).inputs) e,
)

pub redirect_users-outputs :
    (o n : ℕ) (users : List ℕ) (m u : ℕ) (h : ℕ → Node)
    → count u (redirect_users o n users h m).outputs
      ≡ count u (h m).outputs + (if n == m then count u users else 0)
unfolding redirect_users count
redirect_users-outputs o n [] m u h = ground arith
redirect_users-outputs o n (user ∷ users) m u h = ground (
  arith,
  redirect_users-outputs o n users m u (redirect_user o n user h),
  redirected-outputs o n user m u h,
)

redirect-twice :
    (o n : ℕ) (is : List (Option ℕ)) → o ≢ n → redirect o n (redirect o n is) ≡ redirect o n is
unfolding redirect
redirect-twice o n [] d = refl
redirect-twice o n (none ∷ is) d =
    ap (λ (js : List (Option ℕ)). none ∷ js) (redirect-twice o n is d)
redirect-twice o n (some i ∷ is) d = ground (arith, redirect-twice o n is d)

pub redirect_users-inputs :
    (o n : ℕ) (users : List ℕ) (u : ℕ) (h : ℕ → Node)
    → o ≢ n
    → (redirect_users o n users h u).inputs
      ≡ (if ltb 0 (count u users) then redirect o n (h u).inputs else (h u).inputs)
unfolding redirect_users count
redirect_users-inputs o n [] u h d = refl
redirect_users-inputs o n (user ∷ users) u h d = ground (
  arith,
  redirect_users-inputs o n users u (redirect_user o n user h) d,
  redirected-inputs o n user u h,
  redirect-twice o n (h u).inputs d,
  λ (e : (redirect_user o n user h u).inputs ≡ redirect o n (h u).inputs). ap (redirect o n) e,
  λ (e : (redirect_user o n user h u).inputs ≡ (h u).inputs). ap (redirect o n) e,
)

pub put-outputs :
    (n m : ℕ) (v : Node) (h : ℕ → Node)
    → (put n v h m).outputs ≡ (if n == m then v.outputs else (h m).outputs)
unfolding put
put-outputs n m v h = ground arith

pub put-inputs :
    (n m : ℕ) (v : Node) (h : ℕ → Node)
    → (put n v h m).inputs ≡ (if n == m then v.inputs else (h m).inputs)
unfolding put
put-inputs n m v h = ground arith
