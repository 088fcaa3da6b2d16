-- ===== src/Gmock/Tests.antt =====
-- The GMock backend on the sample.
use ccmock.Contexts.{insert_child}
use ccmock.Base.{◌≡◌, refl, back?, spaces, decimal, String, true, [], ◌∷◌, Outcome, ok, exit, fault}
use ccmock.Sample.{sample, insertion_order, dispatch_decl, next_decl, count_decl}
use ccmock.Config.{default_gmock}
use ccmock.Writer.{new_writer}
use ccmock.Gmock.Members.{State}
use ccmock.Gmock.{run, gmock_policy}

abbrev start : State
start = record { writer = new_writer gmock_policy; context_map = [] }

abbrev text_of : Outcome State → String
text_of (ok s) = s.writer.buffer
text_of exit = "exit"
text_of fault = "fault"

run-sample :
    text_of (
      run sample insertion_order default_gmock true
        (dispatch_decl ∷ next_decl ∷ [])
        (count_decl ∷ [])
        start)
    ≡ "\n#include <cstdarg>\n\n\n#include <gmock/gmock.h>\n#include <gtest/gtest.h>\n\n#ifdef __cplusplus\n#define CCMOCK_LINKAGE extern \"C\"\n#else\n#define CCMOCK_LINKAGE\n#endif\n\nclass ccmock_ {\npublic:\n    class util_ {\n    public:\n        MOCK_METHOD((void), dispatch, (int));\n        static thread_local testing::StrictMock<util_> *ccmock_ptr_;\n    };\n\n    MOCK_METHOD((int), next, (const char *, va_list));\n    static thread_local testing::StrictMock<ccmock_> *ccmock_ptr_;\n};\n\nthread_local testing::StrictMock<ccmock_::util_> *ccmock_::util_::ccmock_ptr_ = nullptr;\nthread_local testing::StrictMock<ccmock_> *ccmock_::ccmock_ptr_ = nullptr;\n\nclass CCMockFixture : public testing::Test {\nprotected:\n    void SetUp() override {\n        ccmock_::util_::ccmock_ptr_ = &(*this).util;\n        ccmock_::ccmock_ptr_ = &(*this)._;\n    }\n\n    void TearDown() override {\n        ccmock_::util_::ccmock_ptr_ = nullptr;\n        ccmock_::ccmock_ptr_ = nullptr;\n    }\n\n    testing::StrictMock<ccmock_::util_> util;\n    testing::StrictMock<ccmock_> _;\n};\n\nvoid\nutil::dispatch(int arg1)\n{\n    (*ccmock_::util_::ccmock_ptr_).dispatch(arg1);\n}\n\nint\nnext(const char * s, ...)\n{\n    va_list vargs_;\n\n    va_start(vargs_, s);\n    auto ccmock_val_ = (*ccmock_::ccmock_ptr_).next(s, vargs_);\n    va_end(vargs_);\n\n    return ccmock_val_;\n}\n\nint count;\n\nint main(int argc, char *argv[])\n{\n    testing::InitGoogleTest(&argc, argv);\n\n    return RUN_ALL_TESTS();\n}\n\n"
unfolding run insert_child back? spaces decimal
run-sample = refl
