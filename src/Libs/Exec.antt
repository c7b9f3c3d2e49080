-- ===== src/Libs/Exec.antt =====
-- libs/libexec.c: the table of the functions of the Exec library.
use Prim.Native.String.{String}
use vadm.Base.{ℕ, none, some, List, [], ◌∷◌}
use vadm.Execute.{FuncInfo}

abbrev missing : ℕ → String → String → FuncInfo
missing offset p_name p_arg_regs = record {
  offset = offset;
  p_name = p_name;
  p_arg_regs = p_arg_regs;
  p_func = none;
}

-- `g_func_info_tbl`, with the addresses of the functions that are implemented.
unfoldable pub g_func_info_tbl : ℕ → ℕ → List FuncInfo
g_func_info_tbl exec_close_library exec_open_library =
    missing 0x1e "Supervisor" "D01"
    ∷ missing 0x48 "InitCode" "1002"
    ∷ missing 0x4e "InitStruct" "0A903"
    ∷ missing 0x54 "MakeLibrary" "10A9805"
    ∷ missing 0x5a "MakeFunctions" "A9803"
    ∷ missing 0x60 "FindResident" "901"
    ∷ missing 0x66 "InitResident" "1902"
    ∷ missing 0x6c "Alert" "701"
    ∷ missing 0x72 "Debug" "001"
    ∷ missing 0x78 "Disable" "00"
    ∷ missing 0x7e "Enable" "00"
    ∷ missing 0x84 "Forbid" "00"
    ∷ missing 0x8a "Permit" "00"
    ∷ missing 0x90 "SetSR" "1002"
    ∷ missing 0x96 "SuperState" "00"
    ∷ missing 0x9c "UserState" "001"
    ∷ missing 0xa2 "SetIntVector" "9002"
    ∷ missing 0xa8 "AddIntServer" "9002"
    ∷ missing 0xae "RemIntServer" "9002"
    ∷ missing 0xb4 "Cause" "901"
    ∷ missing 0xba "Allocate" "0802"
    ∷ missing 0xc0 "Deallocate" "09803"
    ∷ missing 0xc6 "AllocMem" "1002"
    ∷ missing 0xcc "AllocAbs" "9002"
    ∷ missing 0xd2 "FreeMem" "0902"
    ∷ missing 0xd8 "AvailMem" "101"
    ∷ missing 0xde "AllocEntry" "801"
    ∷ missing 0xe4 "FreeEntry" "801"
    ∷ missing 0xea "Insert" "A9803"
    ∷ missing 0xf0 "AddHead" "9802"
    ∷ missing 0xf6 "AddTail" "9802"
    ∷ missing 0xfc "Remove" "901"
    ∷ missing 0x102 "RemHead" "801"
    ∷ missing 0x108 "RemTail" "801"
    ∷ missing 0x10e "Enqueue" "9802"
    ∷ missing 0x114 "FindName" "9802"
    ∷ missing 0x11a "AddTask" "BA903"
    ∷ missing 0x120 "RemTask" "901"
    ∷ missing 0x126 "FindTask" "901"
    ∷ missing 0x12c "SetTaskPri" "0902"
    ∷ missing 0x132 "SetSignal" "1002"
    ∷ missing 0x138 "SetExcept" "1002"
    ∷ missing 0x13e "Wait" "001"
    ∷ missing 0x144 "Signal" "0902"
    ∷ missing 0x14a "AllocSignal" "001"
    ∷ missing 0x150 "FreeSignal" "001"
    ∷ missing 0x156 "AllocTrap" "001"
    ∷ missing 0x15c "FreeTrap" "001"
    ∷ missing 0x162 "AddPort" "901"
    ∷ missing 0x168 "RemPort" "901"
    ∷ missing 0x16e "PutMsg" "9802"
    ∷ missing 0x174 "GetMsg" "801"
    ∷ missing 0x17a "ReplyMsg" "901"
    ∷ missing 0x180 "WaitPort" "801"
    ∷ missing 0x186 "FindPort" "901"
    ∷ missing 0x18c "AddLibrary" "901"
    ∷ missing 0x192 "RemLibrary" "901"
    ∷ missing 0x198 "OldOpenLibrary" "901"
    ∷ record {
      offset = 0x19e;
      p_name = "CloseLibrary";
      p_arg_regs = "901";
      p_func = some exec_close_library;
    }
    ∷ missing 0x1a4 "SetFunction" "08903"
    ∷ missing 0x1aa "SumLibrary" "901"
    ∷ missing 0x1b0 "AddDevice" "901"
    ∷ missing 0x1b6 "RemDevice" "901"
    ∷ missing 0x1bc "OpenDevice" "190804"
    ∷ missing 0x1c2 "CloseDevice" "901"
    ∷ missing 0x1c8 "DoIO" "901"
    ∷ missing 0x1ce "SendIO" "901"
    ∷ missing 0x1d4 "CheckIO" "901"
    ∷ missing 0x1da "WaitIO" "901"
    ∷ missing 0x1e0 "AbortIO" "901"
    ∷ missing 0x1e6 "AddResource" "901"
    ∷ missing 0x1ec "RemResource" "901"
    ∷ missing 0x1f2 "OpenResource" "901"
    ∷ missing 0x20a "RawDoFmt" "BA9804"
    ∷ missing 0x210 "GetCC" "00"
    ∷ missing 0x216 "TypeOfMem" "901"
    ∷ missing 0x21c "Procure" "9802"
    ∷ missing 0x222 "Vacate" "9802"
    ∷ record {
      offset = 0x228;
      p_name = "OpenLibrary";
      p_arg_regs = "0902";
      p_func = some exec_open_library;
    }
    ∷ missing 0x22e "InitSemaphore" "801"
    ∷ missing 0x234 "ObtainSemaphore" "801"
    ∷ missing 0x23a "ReleaseSemaphore" "801"
    ∷ missing 0x240 "AttemptSemaphore" "801"
    ∷ missing 0x246 "ObtainSemaphoreList" "801"
    ∷ missing 0x24c "ReleaseSemaphoreList" "801"
    ∷ missing 0x252 "FindSemaphore" "901"
    ∷ missing 0x258 "AddSemaphore" "901"
    ∷ missing 0x25e "RemSemaphore" "901"
    ∷ missing 0x264 "SumKickData" "00"
    ∷ missing 0x26a "AddMemList" "9821005"
    ∷ missing 0x270 "CopyMem" "09803"
    ∷ missing 0x276 "CopyMemQuick" "09803"
    ∷ missing 0x27c "CacheClearU" "00"
    ∷ missing 0x282 "CacheClearE" "10803"
    ∷ missing 0x288 "CacheControl" "1002"
    ∷ missing 0x28e "CreateIORequest" "0802"
    ∷ missing 0x294 "DeleteIORequest" "801"
    ∷ missing 0x29a "CreateMsgPort" "00"
    ∷ missing 0x2a0 "DeleteMsgPort" "801"
    ∷ missing 0x2a6 "ObtainSemaphoreShared" "801"
    ∷ missing 0x2ac "AllocVec" "1002"
    ∷ missing 0x2b2 "FreeVec" "901"
    ∷ missing 0x2b8 "CreatePool" "21003"
    ∷ missing 0x2be "DeletePool" "801"
    ∷ missing 0x2c4 "AllocPooled" "0802"
    ∷ missing 0x2ca "FreePooled" "09803"
    ∷ missing 0x2d0 "AttemptSemaphoreShared" "801"
    ∷ missing 0x2d6 "ColdReboot" "00"
    ∷ missing 0x2dc "StackSwap" "801"
    ∷ missing 0x2fa "CachePreDMA" "09803"
    ∷ missing 0x300 "CachePostDMA" "09803"
    ∷ missing 0x306 "AddMemHandler" "901"
    ∷ missing 0x30c "RemMemHandler" "901"
    ∷ missing 0x312 "ObtainQuickVector" "801"
    ∷ missing 0x33c "NewMinList" "801"
    ∷ missing 0x354 "AVL_AddNode" "A9803"
    ∷ missing 0x35a "AVL_RemNodeByAddress" "9802"
    ∷ missing 0x360 "AVL_RemNodeByKey" "A9803"
    ∷ missing 0x366 "AVL_FindNode" "A9803"
    ∷ missing 0x36c "AVL_FindPrevNodeByAddress" "801"
    ∷ missing 0x372 "AVL_FindPrevNodeByKey" "A9803"
    ∷ missing 0x378 "AVL_FindNextNodeByAddress" "801"
    ∷ missing 0x37e "AVL_FindNextNodeByKey" "A9803"
    ∷ missing 0x384 "AVL_FindFirstNode" "801"
    ∷ missing 0x38a "AVL_FindLastNode" "801"
    ∷ record { offset = 0; p_name = ""; p_arg_regs = ""; p_func = none }
    ∷ []
