-- ===== src/Python.antt =====
-- `class Python` (include/python_driver.h, src/python_driver.cpp): scripts for the interpreter, which is
-- another project's code and a parameter, over the type `P` of its states.
use programme_bee_gadz.Common.{
  ℕ, Option, none, some, List, [], ◌∷◌, Action, ok, fault, ◌>>=◌, threw, ℤ,
}

-- The calls of the interpreter, and the files that it is given.
pub record Interpreter (P : Type 0) : Type 0 where
  -- `Py_SetProgramName`, `Py_Initialize`, `Py_Finalize`
  pub set_program_name : List ℕ → P → P
  pub initialize : P → P
  pub finalize : P → P
  -- `PyRun_SimpleString`
  pub run_simple_string : List ℕ → P → ℤ × P
  -- the contents of a file; `none` if it cannot be opened
  pub contents : List ℕ → P → Option (List ℕ)

module _ {P : Type 0} (python : Interpreter P) where
  -- `Python::Python`
  unfoldable pub new_python : List ℕ → P → P
  new_python program_name p = python.initialize (python.set_program_name program_name p)

  -- `Python::~Python`
  unfoldable pub delete_python : P → P
  delete_python p = python.finalize p

  -- `std::vector<char> bytes(fileSize)` and the reads of it: without a file the size is -1, which is
  -- too much for a vector, and an empty one has no `bytes[0]`.
  abbrev pub read_bytes : Option (List ℕ) → Action P (List ℕ)
  read_bytes none p = (threw, p)
  read_bytes (some []) p = (fault, p)
  read_bytes (some (b ∷ bs)) p = (ok (b ∷ bs), p)

  -- `Python::readFile`
  unfoldable pub read_file : List ℕ → Action P (List ℕ)
  read_file filename p = read_bytes (python.contents filename p) p

  -- `Python::runScript`
  unfoldable pub run_script : List ℕ → Action P ℤ
  run_script script p = let (r, p') = python.run_simple_string script p in (ok r, p')

  -- `Python::runFile`
  unfoldable pub run_file : List ℕ → Action P ℤ
  run_file filename = read_file filename >>= λ script. run_script script
