-- ===== src/Os.antt =====
-- Files as the agent reads and writes them, by the Go calls os.Stat and ioutil.ReadFile and
-- ioutil.WriteFile.
use ddi_agent.Base.{String, ◌≡◌, refl, ◌⊎◌, inl, inr}

-- `missing` is what os.IsNotExist tells; `broken` is any other failure to read or decode the file.
pub data File (A : Type 0) : Type 0 where
  missing : File A
  broken : String → File A
  holding : A → File A

-- How ioutil.WriteFile ends: it truncates the file before it writes.
pub data Write : Type 0 where
  complete : Write
  refused broken_off : String → Write

-- The file after a write; one that breaks off leaves what cannot be decoded.
abbrev pub written : {A : Type 0} → Write → A → File A → File A
written complete content file = holding content
written (refused message) content file = file
written (broken_off message) content file = broken message

pub Write-cases :
    (w : Write)
    → (w ≡ complete) ⊎ ((message : String) × ((w ≡ refused message) ⊎ (w ≡ broken_off message)))
Write-cases complete = inl refl
Write-cases (refused message) = inr (message, inl refl)
Write-cases (broken_off message) = inr (message, inr refl)
